-- ===== src/Ssh/Database.antt =====
-- harness/ssh.py: remote commands and the database file.
use aihomelab.Base.{ℕ, String, List, Keeps}
use aihomelab.Store.{DbFile}
use aihomelab.Config.{Node}
use aihomelab.System.{Proc, finished, timed_out, not_started, undecodable, os_failed, Outside}
use aihomelab.System.Database.{OnDb, db_rules}
use aihomelab.Ssh.Remote.{Options, run_remote, settle, run_argv}

module _ (O : Outside) (V : Type 0) (Q : DbFile V → Type 0) where
  Keeps-settle :
      (node command : String) (o : Options) (t0 : ℕ) (p : Proc)
      → Keeps (OnDb {O = O} Q) (settle node command o t0 p)
  unfolding settle
  Keeps-settle node command o t0 (timed_out captured) = search db_rules
  Keeps-settle node command o t0 (finished code out err) = search db_rules
  Keeps-settle node command o t0 (not_started message) = search db_rules
  Keeps-settle node command o t0 (undecodable message) = search db_rules
  Keeps-settle node command o t0 (os_failed message) = search db_rules

  Keeps-run_argv :
      (node : String) (argv : List String) (command : String) (o : Options)
      → Keeps (OnDb {O = O} Q) (run_argv node argv command o)
  unfolding run_argv
  Keeps-run_argv node argv command o = search (db_rules, Keeps-settle)

  pub Keeps-run_remote :
      (node : Node) (command : String) (o : Options)
      → Keeps (OnDb {O = O} Q) (run_remote node command o)
  unfolding run_remote
  Keeps-run_remote node command o = Keeps-run_argv _ _ _ _
