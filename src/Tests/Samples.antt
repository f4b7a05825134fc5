-- ===== src/Tests/Samples.antt =====
-- Concrete floats, an outside world, a loader and a campaign.
use aihomelab.Base.{
  ℕ, ◌+◌, ◌*◌, ◌/◌, ◌-◌, String, true, none, some, List, [], ◌∷◌, ◌==◌, string_eq, nat_eq, Result,
  ok, ltb,
}
use aihomelab.Base.Int.{ℤ, pos, negsuc}
use aihomelab.Base.Text.{parse_int, show_ℕ}
use aihomelab.Floats.{Floats}
use aihomelab.Config.{
  FioGlobal, FioJob, randread, FioScenarioSpec, Node, StorageTarget, local_nvme, Campaign,
  CampaignRun, after_campaign, Loader, ResolvedRun,
}
use aihomelab.System.{Outside, Sys, finished}
use aihomelab.Store.{absent}
use aihomelab.Parsers.Fio.{Json, object, end}
use aihomelab.Runners.Interface.{Runner}
use aihomelab.Runners.Fio.{fio_runner}

-- Fixed-point numbers with a unit of 1/1048576.
abbrev to_fixed : ℤ → ℕ
to_fixed (pos n) = n * 1048576
to_fixed (negsuc n) = 0

abbrev pub fixed : Floats
fixed = record {
  fits = λ n. true;
  Float = ℕ;
  of_int = to_fixed;
  parse = λ s. elim (parse_int s) [ none ↦ none | some n ↦ some (to_fixed n) ];
  trunc = λ x. ok (pos (x / 1048576));
  add = λ a b. a + b;
  mul = λ a b. a * b / 1048576;
  div = λ a b. a * 1048576 / b;
  sub = λ a b. a - b;
  lt = ltb;
  eq = λ a b. a == b;
  format = λ n x. show_ℕ (x / 1048576);
}

-- Every process exits with 0 and prints what a size query of a missing file prints.
abbrev pub quiet : Outside
quiet = record {
  World = ℕ;
  run = λ c w. (finished (pos 0) "NONE" "", w + 1);
  monotonic = λ w. (w, w + 1);
  utc_now = λ w. (w, w + 1);
}

abbrev pub global : FioGlobal
global = record {
  ioengine = "io_uring";
  direct = pos 1;
  time_based = pos 1;
  runtime = pos 180;
  ramp_time = pos 10;
  end_fsync = pos 1;
  group_reporting = pos 1;
  size = "2T";
}

abbrev pub one_job : FioJob
one_job = record {
  name = "rand";
  rw = randread;
  bs = "4k";
  numjobs = pos 1;
  iodepth = pos 32;
  offset_increment = none;
  rwmixread = none;
  size = none;
}

abbrev pub tiny : FioScenarioSpec
tiny = record {
  kind = "fio";
  name = "tiny";
  description = none;
  fio_global = global;
  jobs = one_job ∷ [];
  drop_caches_between_jobs = true;
  timeout_seconds = none;
}

abbrev pub nvme : StorageTarget
nvme = record {
  name = "nvme";
  node = "spark01";
  path = "/bench";
  kind = local_nvme;
  capacity_gib = some (pos 3700);
  notes = none;
}

abbrev pub spark : Node
spark = record { name = "spark01"; ssh = "u@h" }

abbrev pub once : CampaignRun
once = record { scenario = "tiny.yaml"; target = "nvme"; repeat = pos 1 }

abbrev pub smoke : Campaign ℕ
smoke = record {
  name = "smoke";
  description = none;
  cluster = record { nodes = spark ∷ [] };
  targets = nvme ∷ [];
  vendor_spec = none;
  runs = once ∷ [];
  scenarios_dir = ".";
  cleanup = after_campaign;
  safety_margin_gib = pos 100;
  baseline_run_id = none;
}

abbrev pub disk : Loader ℕ
disk = record {
  read_text = λ path. some path;
  resolve = λ path. path;
  parent = λ path. "/c";
  decode_campaign = λ text. ok smoke;
  decode_scenario = λ text. ok tiny;
}

abbrev pub bound : ResolvedRun
bound = record { run = once; scenario = tiny; target = nvme; scenario_path = "/c/tiny.yaml" }

abbrev pub loads_empty : String → Result (Json ℕ)
loads_empty s = ok (object end)

abbrev pub runners : List (String × Runner quiet ℕ)
runners = ("fio", fio_runner fixed loads_empty quiet) ∷ []

abbrev pub fresh : Sys quiet ℕ
fresh = record { world = 0; sent = []; files = []; dirs = []; db = absent; out = [] }
