-- ===== src/Table.antt =====
-- SQLite tables with a primary key (harness/store.py, the statements under SCHEMA_SQL): a list of
-- rows in the order of their rowids, which only grow, since no statement deletes a row for good.
pub mod Laws
pub mod Rows
use aihomelab.Base.{
  ◌≡◌, Bool, not, Option, none, some, List, [], ◌∷◌, ◌++◌, map, Eq, ◌==◌, any, find, select,
  if◌then◌else◌,
}

module _ {A K : Type 0} ⦃e : Eq K⦄ (key : A → K) where
  -- Whether a row has the key, and the row that SELECT … WHERE key = k fetches.
  abbrev pub has_key : K → List A → Bool
  has_key k = any (λ r. key r == k)

  abbrev pub find_key : K → List A → Option A
  find_key k = find (λ r. key r == k)

  -- INSERT: `none` is the violated PRIMARY KEY.
  unfoldable pub insert_row : A → List A → Option (List A)
  insert_row r rows = if has_key (key r) rows then none else some (rows ++ r ∷ [])

  -- INSERT OR REPLACE: the old row goes, and the new one has the next rowid.
  unfoldable pub replace_row : A → List A → List A
  replace_row r rows = select (λ x. not (key x == key r)) rows ++ r ∷ []

  -- UPDATE … WHERE key = k
  unfoldable pub update_row : K → (A → A) → List A → List A
  update_row k f [] = []
  update_row k f (r ∷ rows) = (if key r == k then f r else r) ∷ update_row k f rows

  -- The primary key is one: no key stands in two rows.
  abbrev pub UniqueKeys : List A → Type 0
  UniqueKeys [] = Unit
  UniqueKeys (r ∷ rows) = (has_key (key r) rows ≡ Bool.false) × UniqueKeys rows
