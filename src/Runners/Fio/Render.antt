-- ===== src/Runners/Fio/Render.antt =====
-- harness/runners/fio.py: the template of a one-job configuration, and the paths on the target.
use aihomelab.Base.{String, ◌<>◌, Option, none, some, [], ◌∷◌, if◌then◌else◌}
use aihomelab.Base.Int.{ℤ}
use aihomelab.Base.Text.{rstrip_slash, show, is_empty, join}
use aihomelab.Config.{
  Rw, read, write, randread, randwrite, readwrite, rw_, randrw, FioJob, FioScenarioSpec,
}

abbrev pub testfile_name : String
testfile_name = "testfile"

abbrev pub prefilled_marker_suffix : String
prefilled_marker_suffix = ".prefilled"

unfoldable pub testfile_path : String → String
testfile_path target_dir = rstrip_slash target_dir <> ("/" <> testfile_name)

unfoldable pub marker_path : String → String
marker_path path = path <> prefilled_marker_suffix

abbrev rw_text : Rw → String
rw_text read = "read"
rw_text write = "write"
rw_text randread = "randread"
rw_text randwrite = "randwrite"
rw_text readwrite = "readwrite"
rw_text rw_ = "rw"
rw_text randrw = "randrw"

abbrev line : String → String → String
line key value = key <> ("=" <> (value <> "\n"))

-- `{% if value %}`: neither None nor empty.
abbrev text_line : String → Option String → String
text_line key none = ""
text_line key (some value) = if is_empty value then "" else line key value

-- `{% if value is not none %}`
abbrev int_line : String → Option ℤ → String
int_line key none = ""
int_line key (some value) = line key (show value)

unfoldable pub render_fio_config : FioScenarioSpec → FioJob → String → String
unfolding join
render_fio_config scenario job target_dir =
    let g = scenario.fio_global in
    join "" (
      "[global]\n"
      ∷ line "ioengine" g.ioengine
      ∷ line "direct" (show g.direct)
      ∷ line "time_based" (show g.time_based)
      ∷ line "runtime" (show g.runtime)
      ∷ line "ramp_time" (show g.ramp_time)
      ∷ line "end_fsync" (show g.end_fsync)
      ∷ line "group_reporting" (show g.group_reporting)
      ∷ line "directory" target_dir
      ∷ line "filename" testfile_name
      ∷ line "size" g.size
      ∷ "\n["
      ∷ job.name
      ∷ "]\n"
      ∷ line "rw" (rw_text job.rw)
      ∷ line "bs" job.bs
      ∷ line "numjobs" (show job.numjobs)
      ∷ line "iodepth" (show job.iodepth)
      ∷ text_line "offset_increment" job.offset_increment
      ∷ text_line "size" job.size
      ∷ int_line "rwmixread" job.rwmixread
      ∷ [])
