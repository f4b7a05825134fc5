-- ===== src/Orchestrator/Latest.antt =====
-- harness/orchestrator.py: the search for the run that `harness resume` continues.
use aihomelab.Base.{
  String, ◌≡◌, refl, Bool, true, false, not, ◌&&◌, Bool-cases, inl, inr, Option, none, some, List,
  [], ◌∷◌, map, ◌≤◌, arith, All, All-mono, ◌==◌, string_eq, ok, order_by, ◌>>=◌, if◌then◌else◌,
}
use aihomelab.Base.Text.{given}
use aihomelab.Base.Sorting.{Sorted, All-order_by, order_by-All, order_by-Sorted}
use mathlib.Core.List.{Memᴰ}
use aihomelab.Store.{RunRecord, Db, tables, run_row, started_after, newest_first, list_runs}
use aihomelab.Orchestrator.{first_running, find_latest_running_run}

-- The run is running, and of the campaign, if one is named.
abbrev pub of_campaign : Option String → RunRecord → Bool
of_campaign none r = true
of_campaign (some name) r = r.campaign_name == name

abbrev pub resumable : Option String → RunRecord → Bool
resumable campaign r = r.status == "running" && of_campaign (given campaign) r

-- No run can be resumed, or the run found is one that can, and none of them started later.
abbrev pub IsNewest : Option String → List RunRecord → (RunRecord → Type 0) → Option String → Type 0
IsNewest campaign rows P none = All (λ r. resumable campaign r ≡ false) rows
IsNewest campaign rows P (some id) =
    (r : RunRecord) × P r
    × (r.run_id ≡ id)
    × (resumable campaign r ≡ true)
    × All (λ x. resumable campaign x ≡ true → x.started_at ≤ r.started_at) rows

first_running-cons :
    (campaign : Option String) (r : RunRecord) (rows : List RunRecord)
    → first_running campaign (map run_row (r ∷ rows))
      ≡ (if resumable campaign r then some r.run_id else first_running campaign (map run_row rows))
unfolding first_running
first_running-cons campaign r rows = go (given campaign)
  where
    go :
        (c : Option String)
        → (if not (r.status == "running")
            then first_running campaign (map run_row rows)
            else (elim c [
              | none ↦ some r.run_id
              | some name ↦
                  if r.campaign_name == name
                  then some r.run_id
                  else first_running campaign (map run_row rows)
            ]))
          ≡ (if r.status == "running" && of_campaign c r
              then some r.run_id
              else first_running campaign (map run_row rows))
    go none = ground arith
    go (some name) = ground arith

none_later :
    (campaign : Option String) (r : RunRecord) (rows : List RunRecord)
    → All (λ y. started_after y r ≡ false) rows
    → All (λ x. resumable campaign x ≡ true → x.started_at ≤ r.started_at) rows
none_later campaign r [] a = tt
none_later campaign r (x ∷ rows) (h, a) = (λ _. ground arith, none_later campaign r rows a)

IsNewest-cons :
    (campaign : Option String) (P : RunRecord → Type 0) (r : RunRecord) (rows : List RunRecord)
    (o : Option String)
    → resumable campaign r ≡ false
    → IsNewest campaign rows P o
    → IsNewest campaign (r ∷ rows) P o
IsNewest-cons campaign P r rows none h a = (h, a)
IsNewest-cons campaign P r rows (some id) h (x, p, e, q, a) =
    (x, p, e, q, ((λ k. absurd (cc (h, k))), a))

first_running-IsNewest :
    (campaign : Option String) (P : RunRecord → Type 0) (rows : List RunRecord)
    → Sorted started_after rows
    → All P rows
    → IsNewest campaign rows P (first_running campaign (map run_row rows))
unfolding first_running
first_running-IsNewest campaign P [] s a = tt
first_running-IsNewest campaign P (r ∷ rows) (later, s) (p, a) =
    rw (first_running-cons campaign r rows) (elim (Bool-cases (resumable campaign r)) [
      | inl yes_ ↦
          rw yes_ (r, p, refl, yes_, ((λ _. ground arith), none_later campaign r rows later))
      | inr no_ ↦
          rw no_
            (IsNewest-cons campaign P r rows _ no_ (first_running-IsNewest campaign P rows s a))
    ])

started_after-asym : (x y : RunRecord) → started_after x y ≡ true → started_after y x ≡ false
started_after-asym x y h = ground arith

started_after-chain :
    (x y z : RunRecord)
    → started_after x y ≡ true
    → started_after z y ≡ false
    → started_after z x ≡ false
started_after-chain x y z h k = ground arith

-- What holds of the sorted rows holds of the rows.
IsNewest-order_by :
    (campaign : Option String) (P : RunRecord → Type 0) (rows : List RunRecord) (o : Option String)
    → IsNewest campaign (order_by started_after rows) P o
    → IsNewest campaign rows P o
IsNewest-order_by campaign P rows none a = order_by-All started_after _ rows a
IsNewest-order_by campaign P rows (some id) (r, p, e, q, a) =
    (r, p, e, q, order_by-All started_after _ rows a)

All-Memᴰ : {A : Type 0} (xs : List A) → All (λ x. Memᴰ x xs) xs
All-Memᴰ [] = tt
All-Memᴰ (x ∷ xs) = (Memᴰ.head refl, All-mono _ _ xs (λ y m. Memᴰ.tail m) (All-Memᴰ xs))

module _ {V : Type 0} (campaign : Option String) (db : Db V) where
  -- `find_latest_running_run` returns on every database with tables and leaves it as it is. It finds
  -- nothing only if no run of the campaign (of any campaign, if none is named) is running; else it
  -- finds a row of the table that is such a run, and none of them started later.
  pub find_latest_running_run-IsNewest :
      (o : Option String) × (find_latest_running_run campaign (tables db) ≡ (ok o, tables db))
      × IsNewest campaign db.runs (λ r. Memᴰ r db.runs) o
  unfolding find_latest_running_run list_runs newest_first ◌>>=◌
  find_latest_running_run-IsNewest = (
    first_running campaign (map run_row (newest_first db.runs)),
    refl,
    IsNewest-order_by campaign _ db.runs _ (
        first_running-IsNewest campaign _ _
          (order_by-Sorted started_after started_after-asym started_after-chain db.runs)
          (All-order_by started_after _ db.runs (All-Memᴰ db.runs))),
  )
