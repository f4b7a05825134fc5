-- ===== src/Table/Rows.antt =====
-- Predicates on every row of a table, through the statements.
use aihomelab.Base.{◌≡◌, true, some, List, [], ◌∷◌, arith, Eq, All, All-append, All-select}
use aihomelab.Table.{has_key, insert_row, replace_row, update_row}
use aihomelab.Table.Laws.{insert_row-eq-some, has_key-append}

module _ {A K : Type 0} ⦃e : Eq K⦄ (key : A → K) (P : A → Type 0) where
  pub insert-All :
      (r : A) (rows rows' : List A)
      → insert_row key r rows ≡ some rows'
      → P r
      → All P rows
      → All P rows'
  insert-All r rows rows' h p a =
      let (fresh, e) = insert_row-eq-some key r rows rows' h in
      rw e (All-append P rows (r ∷ []) a (p, tt))

  pub replace-All : (r : A) (rows : List A) → P r → All P rows → All P (replace_row key r rows)
  unfolding replace_row
  replace-All r rows p a = All-append P _ (r ∷ []) (All-select P _ rows a) (p, tt)

  pub update-All :
      (k : K) (f : A → A) (rows : List A)
      → ((r : A) → P r → P (f r))
      → All P rows
      → All P (update_row key k f rows)
  unfolding update_row
  update-All k f [] h a = tt
  update-All k f (r ∷ rows) h (p, a) = ground (arith, update-All k f rows h a, h r p)

module _ {A K : Type 0} ⦃e : Eq K⦄ (key : A → K) where
  -- Keys that were there stay there.
  pub has_key-insert :
      (k : K) (r : A) (rows rows' : List A)
      → insert_row key r rows ≡ some rows'
      → has_key key k rows ≡ true
      → has_key key k rows' ≡ true
  has_key-insert k r rows rows' h there =
      let (fresh, e) = insert_row-eq-some key r rows rows' h in
      rw e (ground (arith, has_key-append key k r rows))
