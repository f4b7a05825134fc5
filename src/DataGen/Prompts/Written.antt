-- ===== src/DataGen/Prompts/Written.antt =====
-- data-gen/build_prompts.py: what every prompt that is written keeps, the whole loop keeps.
use aihomelab.Base.{ℕ, zero, suc, String, List, Result, Keeps, Keeps-bind, Keeps-pure}
use aihomelab.Base.Int.{ℤ, ◌+ℤ◌, sub_ℕ, neg_part, pos_part}
use aihomelab.Floats.{Floats}
use aihomelab.Parsers.Fio.{Json}
use aihomelab.DataGen.Prompts.Topics.{base_template_weights, indian_template_weights}
use aihomelab.DataGen.Prompts.Fill.{Rng, Placeholders, Pools}
use aihomelab.DataGen.Prompts.Build.{
  Builder, count_of, even_weights, write_prompt, write_prompts, write_all,
}

module _ (fl : Floats) (str : Json fl.Float → String) (rng : Rng fl.Float)
    (format : String → Placeholders → Result String) (template_defs : List (String × String))
    (dietary_split : List (String × fl.Float)) (pools : Pools fl.Float)
    (P : Builder fl str rng format → Type 0)
    (kept : (weights : List (String × fl.Float))
      → Keeps P (write_prompt fl str rng format template_defs dietary_split pools weights)) where
  write_prompts-Keeps :
      (n : ℕ) (weights : List (String × fl.Float))
      → Keeps P (write_prompts fl str rng format template_defs dietary_split pools n weights)
  unfolding write_prompts
  write_prompts-Keeps zero weights = Keeps-pure tt
  write_prompts-Keeps (suc n) weights =
      Keeps-bind (write_prompt fl str rng format template_defs dietary_split pools weights) _
        (kept weights) (λ _. write_prompts-Keeps n weights)

  pub write_all-Keeps :
      (n n_indian : ℤ)
      → Keeps P (write_all fl str rng format template_defs dietary_split pools n n_indian)
  unfolding write_all
  write_all-Keeps n n_indian =
      Keeps-bind
        (write_prompts fl str rng format template_defs dietary_split pools
          (count_of (n +ℤ sub_ℕ (neg_part n_indian) (pos_part n_indian)))
          (even_weights fl base_template_weights))
        _
        (write_prompts-Keeps (count_of (n +ℤ sub_ℕ (neg_part n_indian) (pos_part n_indian)))
          (even_weights fl base_template_weights))
        (λ _. write_prompts-Keeps (count_of n_indian) (even_weights fl indian_template_weights))
