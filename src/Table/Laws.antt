-- ===== src/Table/Laws.antt =====
-- The statements on a table, the rows that a key finds, and unique keys.
use aihomelab.Base.{
  ◌≡◌, refl, true, false, not, some, List, [], ◌∷◌, ◌++◌, arith, Eq, ◌==◌, is_some, select,
  if◌then◌else◌,
}
use mathlib.Core.Option
use aihomelab.Table.{has_key, find_key, insert_row, replace_row, update_row, UniqueKeys}

module _ {A K : Type 0} ⦃e : Eq K⦄ (key : A → K) where
  pub has_key-find : (k : K) (rows : List A) → has_key key k rows ≡ is_some (find_key key k rows)
  has_key-find k [] = refl
  has_key-find k (x ∷ rows) = ground (arith, has_key-find k rows)

  pub has_key-append :
      (k : K) (r : A) (rows : List A)
      → has_key key k (rows ++ r ∷ []) ≡ (if key r == k then true else has_key key k rows)
  has_key-append k r [] = ground arith
  has_key-append k r (x ∷ rows) = ground (arith, has_key-append k r rows)

  pub find_key-append :
      (k : K) (r : A) (rows : List A)
      → has_key key (key r) rows ≡ false
      → find_key key k (rows ++ r ∷ []) ≡ (if key r == k then some r else find_key key k rows)
  find_key-append k r [] h = ground arith
  find_key-append k r (x ∷ rows) h = ground (arith, find_key-append k r rows)

  pub insert_row-eq-some :
      (r : A) (rows rows' : List A)
      → insert_row key r rows ≡ some rows'
      → (has_key key (key r) rows ≡ false) × (rows' ≡ rows ++ r ∷ [])
  unfolding insert_row
  insert_row-eq-some r rows rows' h = ground arith

  -- A SELECT after an INSERT that was accepted.
  pub find-insert :
      (k : K) (r : A) (rows rows' : List A)
      → insert_row key r rows ≡ some rows'
      → find_key key k rows' ≡ (if key r == k then some r else find_key key k rows)
  find-insert k r rows rows' h =
      let (fresh, e) = insert_row-eq-some r rows rows' h in rw e (find_key-append k r rows fresh)

  pub has_key-update :
      (k j : K) (f : A → A) (rows : List A)
      → ((r : A) → key (f r) ≡ key r)
      → has_key key j (update_row key k f rows) ≡ has_key key j rows
  unfolding update_row
  has_key-update k j f [] same = refl
  has_key-update k j f (r ∷ rows) same = ground (arith, has_key-update k j f rows same, same r)

  -- A SELECT after an UPDATE.
  pub find-update :
      (k j : K) (f : A → A) (rows : List A)
      → ((r : A) → key (f r) ≡ key r)
      → find_key key j (update_row key k f rows)
        ≡ (if j == k then Option.map f (find_key key j rows) else find_key key j rows)
  unfolding update_row
  find-update k j f [] same = ground arith
  find-update k j f (r ∷ rows) same = ground (arith, find-update k j f rows same, same r)

  has_key-select :
      (k j : K) (rows : List A)
      → has_key key j (select (λ x. not (key x == k)) rows)
        ≡ (if k == j then false else has_key key j rows)
  has_key-select k j [] = ground arith
  has_key-select k j (x ∷ rows) = ground (arith, has_key-select k j rows)

  find_key-replace_tail :
      (j : K) (r : A) (rows : List A)
      → find_key key j (select (λ x. not (key x == key r)) rows ++ r ∷ [])
        ≡ (if key r == j then some r else find_key key j rows)
  find_key-replace_tail j r [] = ground arith
  find_key-replace_tail j r (x ∷ rows) = ground (arith, find_key-replace_tail j r rows)

  -- A SELECT after an INSERT OR REPLACE.
  pub find-replace :
      (j : K) (r : A) (rows : List A)
      → find_key key j (replace_row key r rows)
        ≡ (if key r == j then some r else find_key key j rows)
  unfolding replace_row
  find-replace j r rows = find_key-replace_tail j r rows

  UniqueKeys-append :
      (r : A) (rows : List A)
      → has_key key (key r) rows ≡ false
      → UniqueKeys key rows
      → UniqueKeys key (rows ++ r ∷ [])
  UniqueKeys-append r [] h u = (refl, tt)
  UniqueKeys-append r (x ∷ rows) h (fresh, u) =
      ground (arith, UniqueKeys-append r rows, has_key-append (key x) r rows)

  pub insert-UniqueKeys :
      (r : A) (rows rows' : List A)
      → insert_row key r rows ≡ some rows'
      → UniqueKeys key rows
      → UniqueKeys key rows'
  insert-UniqueKeys r rows rows' h u =
      let (fresh, e) = insert_row-eq-some r rows rows' h in rw e (UniqueKeys-append r rows fresh u)

  pub update-UniqueKeys :
      (k : K) (f : A → A) (rows : List A)
      → ((r : A) → key (f r) ≡ key r)
      → UniqueKeys key rows
      → UniqueKeys key (update_row key k f rows)
  unfolding update_row
  update-UniqueKeys k f [] same u = tt
  update-UniqueKeys k f (r ∷ rows) same (fresh, u) =
      ground (arith, update-UniqueKeys k f rows same, has_key-update k (key r) f rows same, same r)

  select-UniqueKeys :
      (k : K) (rows : List A)
      → UniqueKeys key rows
      → UniqueKeys key (select (λ x. not (key x == k)) rows)
  select-UniqueKeys k [] u = tt
  select-UniqueKeys k (x ∷ rows) (fresh, u) =
      ground (arith, select-UniqueKeys k rows, has_key-select k (key x) rows)

  pub replace-UniqueKeys :
      (r : A) (rows : List A) → UniqueKeys key rows → UniqueKeys key (replace_row key r rows)
  unfolding replace_row
  replace-UniqueKeys r rows u =
      UniqueKeys-append r _ (ground (arith, has_key-select (key r) (key r) rows))
        (select-UniqueKeys (key r) rows u)
