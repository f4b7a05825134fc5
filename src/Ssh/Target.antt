-- ===== src/Ssh/Target.antt =====
-- harness/ssh.py: `df_free_bytes`, `_stat_file_size_gib` and `preflight_target`.
use aihomelab.Base.{
  ℕ, String, ◌<>◌, Bool, true, false, ◌||◌, Option, none, some, ◌==◌, string_eq, Py, pure, raise,
  lift, value_error, unicode_error, remote_error, Result, ok, raised, attempt, ◌>>=◌, if◌then◌else◌,
}
use aihomelab.Base.Int.{ℤ, pos, ◌+ℤ◌, ltb_ℤ, leb_ℤ, floor_div}
use aihomelab.Base.Text.{strip, is_empty, show, repr, quote, parse_int}
use aihomelab.Config.{Node, StorageTarget}
use aihomelab.System.{Outside, Sys}
use aihomelab.Ssh.Remote.{run_remote, succeeded, remote_message}

abbrev pub gib : ℕ
gib = 1073741824

pub record PreflightFinding : Type 0 where
  pub target_name : String
  pub node_name : String
  pub path : String
  pub is_ok : Bool
  pub message : String
  pub free_gib : Option ℤ
  pub required_gib : Option ℤ

abbrev pub int_of : String → Result ℤ
int_of s = elim (parse_int s) [
  | none ↦ raised (value_error ("invalid literal for int() with base 10: " <> repr s))
  | some n ↦ ok n
]

-- The size in GiB that `stat -c %s … || echo NONE` printed, if it printed one.
unfoldable pub stat_gib : String → Option ℤ
unfolding strip parse_int
stat_gib stdout =
    let out = strip stdout in
    if is_empty out || out == "NONE"
    then none
    else (elim (parse_int out) [ none ↦ none | some n ↦ some (floor_div n gib) ])

abbrev pub stat_command : String → String
stat_command path = "stat -c %s " <> (quote path <> " 2>/dev/null || echo NONE")

module _ {O : Outside} {V : Type 0} where
  unfoldable pub df_free_bytes : Node → String → Bool → Py (Sys O V) ℤ
  unfolding ◌>>=◌
  df_free_bytes node path dry_run = if dry_run then pure (pos 0) else (do
    result ←
        run_remote node ("df -B1 --output=avail " <> (quote path <> " | tail -n 1"))
          (record { timeout = some (pos 30); check = true; dry_run = false; stdin = none })
    lift (int_of result.stdout))

  -- `int(result.stdout.strip())`: `int` strips too.
  unfoldable pub stat_file_size_gib : Node → String → Py (Sys O V) (Option ℤ)
  unfolding ◌>>=◌ stat_gib
  stat_file_size_gib node path = do
    r ←
        run_remote node (stat_command path)
          (record { timeout = some (pos 15); check = false; dry_run = false; stdin = none })
    pure (stat_gib r.stdout)

abbrev shown_path : Option String → String
shown_path none = "None"
shown_path (some p) = p

module _ (node : Node) (target : StorageTarget) (required margin : ℤ) where
  abbrev finding : Bool → Option ℤ → String → PreflightFinding
  finding b free message = record {
    target_name = target.name;
    node_name = node.name;
    path = target.path;
    is_ok = b;
    message = message;
    free_gib = free;
    required_gib = some required;
  }

  -- The comparison of the free space with what the run will add and the margin.
  abbrev enough : (free effective : ℤ) → String → PreflightFinding
  enough free effective note =
      let needed = effective +ℤ margin in
      if ltb_ℤ free needed
      then finding false (some free) (
          "free space "
          <> (show free
              <> (" GiB < required "
                  <> (show effective
                      <> (" GiB + safety_margin "
                          <> (show margin <> (" GiB = " <> (show needed <> " GiB"))))))))
      else finding true (some free) (
          "OK ("
          <> (show free <> (" GiB free; needs " <> (show needed <> (" GiB" <> (note <> ")"))))))

  -- The verdict once the path is there and the free space and the existing file are known.
  unfoldable pub judge : (free : ℤ) (file : Option String) (existing : Option ℤ) → PreflightFinding
  judge free file none = enough free required ""
  judge free file (some size) =
      if leb_ℤ required size
      then enough free (pos 0) (", reusing existing " <> (show size <> " GiB workspace file"))
      else finding false (some free) (
          "existing file at "
          <> (shown_path file
              <> (" is "
                  <> (show size
                      <> (" GiB, smaller than required "
                          <> (show required
                              <> (" GiB. The runner refuses to extend it (007 silent-extend bug). "
                                  <> "Remove the file first.")))))))

  module _ {O : Outside} {V : Type 0} where
    unfoldable pub existing_size : Option String → Py (Sys O V) (Option ℤ)
    unfolding stat_file_size_gib
    existing_size none = pure none
    existing_size (some path) = if is_empty path then pure none else stat_file_size_gib node path

    -- From `free_gib` on: what `df` raised becomes a finding, if it is a RemoteError or a ValueError.
    unfoldable pub after_df : Option String → Result ℤ → Py (Sys O V) PreflightFinding
    unfolding existing_size judge ◌>>=◌
    after_df file (ok free_bytes) = do
      existing ← existing_size file
      pure (judge (floor_div free_bytes gib) file existing)
    after_df file (raised (value_error m)) = pure (finding false none ("df failed: " <> m))
    after_df file (raised (unicode_error m)) = pure (finding false none ("df failed: " <> m))
    after_df file (raised (remote_error r)) =
        pure (finding false none ("df failed: " <> remote_message r))
    after_df file (raised e) = raise e

    unfoldable pub preflight_target : Bool → Option String → Py (Sys O V) PreflightFinding
    unfolding after_df run_remote df_free_bytes
    preflight_target true file = pure (
        finding true none ("dry-run (would check ≥" <> (show (required +ℤ margin) <> " GiB free)")))
    preflight_target false file = do
      made ←
          run_remote node ("mkdir -p " <> quote target.path)
            (record { timeout = some (pos 30); check = false; dry_run = false; stdin = none })
      if succeeded made
          then (do free ← attempt (df_free_bytes node target.path false); after_df file free)
          else pure (finding false none ("cannot create path: " <> strip made.stderr))
