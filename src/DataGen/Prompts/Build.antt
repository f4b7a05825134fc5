-- ===== src/DataGen/Prompts/Build.antt =====
-- data-gen/build_prompts.py: `main`, which writes the prompts. Its messages are left out.
use Prim.Native.String.{String}
use Prim.Native.Char.{Char, code}
use aihomelab.Base.{
  ℕ, zero, suc, ◌/◌, ◌%◌, Bool, true, false, ◌||◌, Option, none, some, List, [], ◌∷◌, ◌++◌, map,
  select, dict_get, ◌==◌, string_eq, nat_eq, key_error, value_error, runtime_error, Result, ok,
  raised, Py, pure, lift, modify, ◌>>=◌, ◌>>◌, if◌then◌else◌, ltb,
}
use aihomelab.Base.Attempt.{◌>>=◌ as ◌>>?◌}
use aihomelab.Base.Int.{ℤ, pos, negsuc, ◌+ℤ◌, sub_ℕ, pos_part, neg_part}
use aihomelab.Base.Dict
use aihomelab.Base.Text.{is_empty, strip, show_ℕ}
use aihomelab.Floats.{Floats}
use aihomelab.Parsers.Fio.{Json, string, object, Members, end, member}
use aihomelab.DataGen.Generate.{PromptRow}
use aihomelab.DataGen.Prompts.Topics.{base_template_weights, indian_template_weights}
use aihomelab.DataGen.Prompts.Excerpt.{
  GroundingRow, has_content, filter_for_adaptation, filter_for_constraint_cooking,
}
use aihomelab.DataGen.Prompts.Fill.{
  Rng, Placeholders, Pools, weighted_pick, normalize, fill_placeholders,
}

abbrev pub digit_char : ℕ → Char
digit_char zero = "0"
digit_char (suc zero) = "1"
digit_char (suc (suc zero)) = "2"
digit_char (suc (suc (suc zero))) = "3"
digit_char (suc (suc (suc (suc zero)))) = "4"
digit_char (suc (suc (suc (suc (suc zero))))) = "5"
digit_char (suc (suc (suc (suc (suc (suc zero)))))) = "6"
digit_char (suc (suc (suc (suc (suc (suc (suc zero))))))) = "7"
digit_char (suc (suc (suc (suc (suc (suc (suc (suc zero)))))))) = "8"
digit_char _ = "9"

-- `f"{n:06d}"`
unfoldable pub six_digits : ℕ → String
unfolding show_ℕ
six_digits n =
    if ltb n 1000000
    then String.◌∷◌ (digit_char (n / 100000)) (
        String.◌∷◌ (digit_char (n / 10000 % 10)) (
          String.◌∷◌ (digit_char (n / 1000 % 10)) (
            String.◌∷◌ (digit_char (n / 100 % 10)) (
              String.◌∷◌ (digit_char (n / 10 % 10)) (String.◌∷◌ (digit_char (n % 10)) String.[])))))
    else show_ℕ n

-- `f"025-{written:06d}"`
unfoldable pub id_of_number : ℕ → String
unfolding six_digits
id_of_number written =
    String.◌∷◌ "0" (String.◌∷◌ "2" (String.◌∷◌ "5" (String.◌∷◌ "-" (six_digits written))))

abbrev pub placeholder_members : {F : Type 0} → Placeholders → Members F
placeholder_members [] = end
placeholder_members ((k, v) ∷ rest) = member k (string v) (placeholder_members rest)

-- `range(n)` has as many.
abbrev pub count_of : ℤ → ℕ
count_of (pos n) = n
count_of (negsuc n) = 0

-- `s.split(c)`
abbrev split_first : ℕ → Char → List String → List String
split_first c d [] = String.◌∷◌ d String.[] ∷ []
split_first c d (part ∷ parts) =
    if code d == c then String.[] ∷ part ∷ parts else String.◌∷◌ d part ∷ parts

unfoldable pub split_on : ℕ → String → List String
split_on c String.[] = String.[] ∷ []
split_on c (String.◌∷◌ d s) = split_first c d (split_on c s)

-- `row.get("_orig_idx")` of the row that a template took, if it took one
abbrev pub grounding_id_of : {F : Type 0} → Option (GroundingRow F) → Option ℕ
grounding_id_of none = none
grounding_id_of (some r) = some r.orig_idx

module _ (fl : Floats) where
  -- `k, v = p.split("=")` with `float(v)`
  abbrev pub weight_of : List String → Result (String × fl.Float)
  weight_of (k ∷ v ∷ []) = elim (fl.parse v) [
    | none ↦ raised (value_error "could not convert string to float")
    | some w ↦ ok (strip k, w)
  ]
  weight_of _ = raised (value_error "not two values to unpack")

  unfoldable pub set_weights :
      List String → List (String × fl.Float) → Result (List (String × fl.Float))
  unfolding Dict.set strip split_on
  set_weights [] out = ok out
  set_weights (p ∷ parts) out =
      if is_empty (strip p)
      then set_weights parts out
      else weight_of (split_on b'=' (strip p)) >>? λ kv. set_weights parts (Dict.set kv.0 kv.1 out)

  unfoldable pub parse_split : String → Result (List (String × fl.Float))
  unfolding set_weights normalize
  parse_split spec = set_weights (split_on b',' spec) [] >>? λ out. ok (normalize fl out)

  abbrev pub even_weights : List String → List (String × fl.Float)
  unfolding normalize
  even_weights names = normalize fl (map (λ k. (k, fl.of_int (pos 1))) names)

  -- Rows with their positions
  abbrev pub numbered : ℕ → List (Members fl.Float) → List (GroundingRow fl.Float)
  numbered i [] = []
  numbered i (members ∷ rest) = record { members = members; orig_idx = i } ∷ numbered (suc i) rest

  module _ (str : Json fl.Float → String) where
    unfoldable pub pools_of : (gc_rows sr_rows : List (Members fl.Float)) → Pools fl.Float
    unfolding has_content filter_for_adaptation filter_for_constraint_cooking
    pools_of gc_rows sr_rows =
        let gc_rich = select (has_content fl str) (numbered 0 gc_rows) in
        let sr_rich = select (has_content fl str) (numbered 0 sr_rows) in
        record {
          adaptation_vegan = filter_for_adaptation fl str "vegan" gc_rich;
          adaptation_vegetarian = filter_for_adaptation fl str "vegetarian" gc_rich;
          constraint_vegan = filter_for_constraint_cooking fl str "vegan" sr_rich;
          constraint_vegetarian = filter_for_constraint_cooking fl str "vegetarian" sr_rich;
          cross_cuisine = gc_rich;
        }

    abbrev pub is_nil : {A : Type 0} → List A → Bool
    is_nil [] = true
    is_nil (x ∷ xs) = false

    -- `sys.exit` at an empty pool
    abbrev pub some_pool_empty : Pools fl.Float → Bool
    some_pool_empty pools =
        is_nil pools.adaptation_vegan
        || is_nil pools.adaptation_vegetarian
        || is_nil pools.constraint_vegan
        || is_nil pools.constraint_vegetarian
        || is_nil pools.cross_cuisine

    module _ (rng : Rng fl.Float) (format : String → Placeholders → Result String) where
      -- The generator of random numbers, `written`, and the rows that are written
      pub record Builder : Type 0 where
        pub state : rng.State
        pub written : ℕ
        pub rows : List (PromptRow fl.Float)

      abbrev pub drawn : {A : Type 0} → Py rng.State A → Py Builder A
      drawn method b = let (a, s) = method b.state in (a, record b { state = s })

      -- The user turn template of each template
      abbrev pub template_of : List (String × String) → String → Result String
      template_of template_defs name = elim (dict_get name template_defs) [
        | none ↦ raised (key_error name)
        | some text ↦ ok text
      ]

      unfoldable pub fill_template :
          String
          → (template_name dietary : String) → Pools fl.Float
          → Py rng.State (String × Placeholders × Option ℕ)
      unfolding fill_placeholders ◌>>=◌
      fill_template user_turn_template template_name dietary pools = do
        (filled, row) ← fill_placeholders fl rng str template_name dietary pools
        let placeholders = ("dietary_preference", dietary) ∷ filled
        user_turn ← lift (format user_turn_template placeholders)
        pure (user_turn, placeholders, grounding_id_of row)

      abbrev pub index_of : Option ℕ → Option ℤ
      index_of none = none
      index_of (some i) = some (pos i)

      unfoldable pub add_prompt :
          String → String → String × Placeholders × Option ℕ → Builder → Builder
      unfolding id_of_number
      add_prompt tmpl dietary (user_turn, placeholders, grounding_id) b = record b {
        written = suc b.written;
        rows =
            b.rows
            ++ record {
              request_id = id_of_number (suc b.written);
              template = tmpl;
              dietary_preference = dietary;
              user_turn = user_turn;
              placeholders = object (placeholder_members placeholders);
              grounding_row_id = index_of grounding_id;
            }
              ∷ [];
      }

      module _ (template_defs : List (String × String)) (dietary_split : List (String × fl.Float))
          (pools : Pools fl.Float) where
        unfoldable pub write_prompt : List (String × fl.Float) → Py Builder (Unit {0})
        unfolding weighted_pick fill_template ◌>>=◌ add_prompt
        write_prompt weights = do
          tmpl ← drawn (weighted_pick fl rng weights)
          dietary ← drawn (weighted_pick fl rng dietary_split)
          text ← lift (template_of template_defs tmpl)
          filled ← drawn (fill_template text tmpl dietary pools)
          modify (add_prompt tmpl dietary filled)

        unfoldable pub write_prompts : ℕ → List (String × fl.Float) → Py Builder (Unit {0})
        unfolding write_prompt
        write_prompts zero weights = pure tt
        write_prompts (suc n) weights = do write_prompt weights; write_prompts n weights

        -- `n_base` prompts of the base templates and `n_indian` of the Indian ones
        unfoldable pub write_all : (n n_indian : ℤ) → Py Builder (Unit {0})
        unfolding write_prompts normalize
        write_all n n_indian = do
          write_prompts (count_of (n +ℤ sub_ℕ (neg_part n_indian) (pos_part n_indian)))
              (even_weights base_template_weights)
          write_prompts (count_of n_indian) (even_weights indian_template_weights)

        -- `main` behind the loading, with `int(round(x))`. The outcome and the rows that are written; a
        -- `sys.exit` is a RuntimeError here.
        unfoldable pub build :
            (round_int : fl.Float → ℤ) (n : ℤ) (fraction : fl.Float)
            → rng.State
            → Result (Unit {0}) × List (PromptRow fl.Float)
        unfolding write_all
        build round_int n fraction seeded =
            if some_pool_empty pools
            then (raised (runtime_error "SystemExit: a pool is empty after filtering"), [])
            else (let (outcome, b) =
                  write_all n (round_int (fl.mul (fl.of_int n) fraction))
                    (record { state = seeded; written = 0; rows = [] }) in
                (outcome, b.rows))
