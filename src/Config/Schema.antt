-- ===== src/Config/Schema.antt =====
-- harness/config.py: the models. `V` is the type of floats.
use aihomelab.Base.{String, Bool, Option, List}
use aihomelab.Base.Int.{ℤ}

pub record FioGlobal : Type 0 where
  pub ioengine : String
  pub direct : ℤ
  pub time_based : ℤ
  pub runtime : ℤ
  pub ramp_time : ℤ
  pub end_fsync : ℤ
  pub group_reporting : ℤ
  pub size : String

pub data Rw : Type 0 where
  read write randread randwrite readwrite rw_ randrw : Rw

pub record FioJob : Type 0 where
  pub name : String
  pub rw : Rw
  pub bs : String
  pub numjobs : ℤ
  pub iodepth : ℤ
  pub offset_increment : Option String
  pub rwmixread : Option ℤ
  pub size : Option String

pub record FioScenarioSpec : Type 0 where
  pub kind : String
  pub name : String
  pub description : Option String
  pub fio_global : FioGlobal
  pub jobs : List FioJob
  pub drop_caches_between_jobs : Bool
  pub timeout_seconds : Option ℤ

pub record Node : Type 0 where
  pub name : String
  pub ssh : String

pub record Cluster : Type 0 where
  pub nodes : List Node

pub data TargetKind : Type 0 where
  local_nvme lustre nfs gcs : TargetKind

pub record StorageTarget : Type 0 where
  pub name : String
  pub node : String
  pub path : String
  pub kind : TargetKind
  pub capacity_gib : Option ℤ
  pub notes : Option String

pub record VendorSpec (V : Type 0) : Type 0 where
  pub label : Option String
  pub seqwrite_mbps : Option V
  pub seqread_mbps : Option V
  pub randread_iops : Option V
  pub randwrite_iops : Option V

pub record CampaignRun : Type 0 where
  pub scenario : String
  pub target : String
  pub repeat : ℤ

pub data Cleanup : Type 0 where
  after_campaign after_each_run never : Cleanup

pub record Campaign (V : Type 0) : Type 0 where
  pub name : String
  pub description : Option String
  pub cluster : Cluster
  pub targets : List StorageTarget
  pub vendor_spec : Option (VendorSpec V)
  pub runs : List CampaignRun
  pub scenarios_dir : String
  pub cleanup : Cleanup
  pub safety_margin_gib : ℤ
  pub baseline_run_id : Option String

pub record ResolvedRun : Type 0 where
  pub run : CampaignRun
  pub scenario : FioScenarioSpec
  pub target : StorageTarget
  pub scenario_path : String
