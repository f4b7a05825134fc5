-- ===== src/DataGen/Generate/Returns.antt =====
-- data-gen/generate.py: when a request comes back with a row.
use aihomelab.Base.{
  String, Bool, true, false, Option, none, some, Result, ok, raised, Error, key_error, Py, lift,
  modify, ◌>>=◌, ◌≡◌, refl, sym, ap, subst, ◌∙◌, inl, inr, Bool-cases, dict_get, string_eq,
}
use aihomelab.Base.Attempt.{◌>>=◌ as ◌>>?◌, ok-injective}
use aihomelab.Base.Text.{is_empty}
use aihomelab.Floats.{Floats}
use aihomelab.Parsers.Fio.{
  Json, null, bool, int, float, string, array, object, nil, cons, Members, end, lookup_member,
  get_member, get_or,
}
use aihomelab.DataGen.Generate.Request.{
  PromptRow, GeneratedRow, Posted, answered, failed, Reply, Decoded, decoded, malformed, unreadable,
  set_decoded, item, item_0, set_raw, set_finish, set_tokens, set_received, blank_row, is_malformed,
  after_block, or_raise, payload_of, build_payload, build_messages,
}
use aihomelab.DataGen.Generate.Reply.{
  Setup, Endpoint, parse_content, read_reply, finish_row, row_of, generate_one,
}

-- An exception that the block catches
abbrev Caught : Error → Type 0
Caught e = (text : String) × (is_malformed e ≡ some text)

abbrev OnlyCaught : {A : Type 0} → Result A → Type 0
OnlyCaught (ok a) = Unit
OnlyCaught (raised e) = Caught e

or_raise-OnlyCaught :
    {A : Type 0} (e : Error) → Caught e → (found : Option A) → OnlyCaught (or_raise e found)
or_raise-OnlyCaught e caught none = caught
or_raise-OnlyCaught e caught (some a) = tt

module _ {F : Type 0} where
  item-OnlyCaught : (k : String) (x : Json F) → OnlyCaught (item k x)
  item-OnlyCaught k (object ms) = or_raise-OnlyCaught (key_error k) (_, refl) (lookup_member k ms)
  item-OnlyCaught k null = (_, refl)
  item-OnlyCaught k (bool b) = (_, refl)
  item-OnlyCaught k (int n) = (_, refl)
  item-OnlyCaught k (float y) = (_, refl)
  item-OnlyCaught k (string s) = (_, refl)
  item-OnlyCaught k (array xs) = (_, refl)

  item-some :
      (k : String) (ms : Members F) {v : Json F}
      → lookup_member k ms ≡ some v
      → item k (object ms) ≡ ok v
  item-some k ms e = ap (or_raise (key_error k)) e

  item_0-OnlyCaught : (x : Json F) → OnlyCaught (item_0 x)
  item_0-OnlyCaught (object ms) = (_, refl)
  item_0-OnlyCaught null = (_, refl)
  item_0-OnlyCaught (bool b) = (_, refl)
  item_0-OnlyCaught (int n) = (_, refl)
  item_0-OnlyCaught (float y) = (_, refl)
  item_0-OnlyCaught (string s) = elim (Bool-cases (is_empty s)) [
    | inl e ↦ rw e (_, refl)
    | inr e ↦ rw e tt
  ]
  item_0-OnlyCaught (array nil) = (_, refl)
  item_0-OnlyCaught (array (cons x xs)) = tt

  item-object :
      (k : String) (x : Json F) {v : Json F} → item k x ≡ ok v → (ms : Members F) × (x ≡ object ms)
  item-object k (object ms) e = (ms, refl)
  item-object k null e = absurd cc
  item-object k (bool b) e = absurd cc
  item-object k (int n) e = absurd cc
  item-object k (float y) e = absurd cc
  item-object k (string s) e = absurd cc
  item-object k (array xs) e = absurd cc

module _ (fl : Floats) (loads : String → Decoded fl.Float) where
  abbrev After : Result (Unit {0}) → GeneratedRow fl.Float → Type 0
  After (ok a) r = Unit
  After (raised e) r = Caught e

  -- The method returns, or raises what is caught.
  abbrev Ends : Py (GeneratedRow fl.Float) (Unit {0}) → Type 0
  Ends method = (r : GeneratedRow fl.Float) → After (method r).0 (method r).1

  Ends-lift :
      {A : Type 0} (first : Result A) (next : A → Py (GeneratedRow fl.Float) (Unit {0}))
      → OnlyCaught first
      → ((a : A) → first ≡ ok a → Ends (next a))
      → Ends (lift first >>= next)
  unfolding ◌>>=◌
  Ends-lift (ok a) next caught k r = k a refl r
  Ends-lift (raised e) next caught k r = caught

  Ends-modify :
      (f : GeneratedRow fl.Float → GeneratedRow fl.Float)
      (next : Py (GeneratedRow fl.Float) (Unit {0}))
      → Ends next
      → Ends (modify f >>= λ _. next)
  unfolding ◌>>=◌
  Ends-modify f next k r = k (f r)

  abbrev pub is_readable : Decoded fl.Float → Bool
  is_readable (unreadable e) = false
  is_readable _ = true

  set_decoded-Ends : (d : Decoded fl.Float) → is_readable d ≡ true → Ends (set_decoded d)
  unfolding ◌>>=◌
  set_decoded-Ends (decoded parsed) reads r = tt
  set_decoded-Ends (malformed text) reads r = tt
  set_decoded-Ends (unreadable e) reads r = absurd cc

  parse_content-Ends :
      (content : Json fl.Float)
      → ((s : String) → content ≡ string s → is_readable (loads s) ≡ true)
      → Ends (parse_content fl loads content)
  unfolding parse_content
  parse_content-Ends (string s) reads r = set_decoded-Ends (loads s) (reads s refl) r
  parse_content-Ends null reads r = (_, refl)
  parse_content-Ends (bool b) reads r = (_, refl)
  parse_content-Ends (int n) reads r = (_, refl)
  parse_content-Ends (float x) reads r = (_, refl)
  parse_content-Ends (array xs) reads r = (_, refl)
  parse_content-Ends (object ms) reads r = (_, refl)

  -- `data.get("usage", {}) or {}` is an object, where `data` is one.
  abbrev pub HasUsage : Json fl.Float → Type 0
  HasUsage (object ms) =
      (usage : Members fl.Float) × (get_or fl "usage" (object end) (object ms) ≡ ok (object usage))
  HasUsage _ = Unit

  -- `data["choices"][0]["message"]["content"]`
  abbrev pub content_of : Json fl.Float → Result (Json fl.Float)
  content_of body = item "choices" body >>? λ choices.
      item_0 choices >>? λ choice. item "message" choice >>? λ said. item "content" said

  -- If the content is a text, `json.loads` of it gives a document or a JSONDecodeError.
  abbrev pub HasContent : Json fl.Float → Type 0
  HasContent body = (s : String) → content_of body ≡ ok (string s) → is_readable (loads s) ≡ true

  abbrev pub IsSound : Posted fl.Float → Type 0
  IsSound (failed text) = Unit
  IsSound (answered body) = HasUsage body × HasContent body

  get_member-OnlyCaught :
      (k : String) (x : Json fl.Float)
      → (ms : Members fl.Float) × (x ≡ object ms)
      → OnlyCaught (get_member fl k x)
  unfolding get_member
  get_member-OnlyCaught k x (ms, e) = rw e tt

  usage-OnlyCaught :
      (body : Json fl.Float)
      → HasUsage body
      → (ms : Members fl.Float) × (body ≡ object ms)
      → OnlyCaught (get_or fl "usage" (object end) body)
  usage-OnlyCaught body has (ms, e) = let (usage, is) = subst HasUsage e has in rw (e, is) tt

  usage-object :
      (body : Json fl.Float)
      → HasUsage body
      → (ms : Members fl.Float) × (body ≡ object ms)
      → {u : Json fl.Float} → get_or fl "usage" (object end) body ≡ ok u
      → (usage : Members fl.Float) × (u ≡ object usage)
  usage-object body has (ms, e) of_usage =
      let (usage, is) = subst HasUsage e has in
      (usage, ok-injective (sym of_usage ∙ ap (get_or fl "usage" (object end)) e ∙ is))

  read_reply-Ends :
      (body : Json fl.Float) → HasUsage body → HasContent body → Ends (read_reply fl loads body)
  unfolding read_reply
  read_reply-Ends body has reads =
      Ends-lift (item "choices" body) _ (item-OnlyCaught "choices" body) λ choices of_body.
        Ends-lift (item_0 choices) _ (item_0-OnlyCaught choices) λ choice of_choices.
          Ends-lift (item "message" choice) _ (item-OnlyCaught "message" choice) λ said of_choice.
            Ends-lift (item "content" said) _ (item-OnlyCaught "content" said) λ content of_said.
              Ends-modify (set_raw content) _ (
                Ends-lift (get_member fl "finish_reason" choice) _
                  (get_member-OnlyCaught "finish_reason" choice
                    (item-object "message" choice of_choice))
                  λ reason e. Ends-modify (set_finish reason) _ (
                    Ends-lift (get_or fl "usage" (object end) body) _
                      (usage-OnlyCaught body has (item-object "choices" body of_body))
                      λ usage of_usage.
                        Ends-lift (get_member fl "prompt_tokens" usage) _
                          (get_member-OnlyCaught "prompt_tokens" usage
                            (usage-object body has (item-object "choices" body of_body) of_usage))
                          λ prompt e.
                            Ends-lift (get_member fl "completion_tokens" usage) _
                              (get_member-OnlyCaught "completion_tokens" usage (
                                usage-object body has (item-object "choices" body of_body)
                                  of_usage))
                              λ completion e. Ends-modify (set_tokens prompt completion) _ (
                                parse_content-Ends content λ s is.
                                  reads s (rw (of_body, of_choices, of_choice, of_said, is) refl))))

  handle-Returns :
      (outcome : Result (Unit {0})) (r : GeneratedRow fl.Float)
      → After outcome r
      → (after_block outcome r).0 ≡ ok tt
  unfolding ◌>>=◌
  handle-Returns (ok _) r caught = refl
  handle-Returns (raised e) r (text, caught) = rw caught refl

  finish_row-Returns :
      (posted : Posted fl.Float)
      → IsSound posted
      → (r : GeneratedRow fl.Float) → (finish_row fl loads posted r).0 ≡ ok tt
  unfolding finish_row
  finish_row-Returns (failed text) sound r = refl
  finish_row-Returns (answered body) sound r =
      handle-Returns (read_reply fl loads body r).0 (read_reply fl loads body r).1
        (read_reply-Ends body sound.0 sound.1 r)

  -- The sampling of a template has the members that every payload has.
  pub record HasSampling (setup : Setup fl loads) (template : String) : Type 0 where
    pub sampling : Members fl.Float
    pub temperature : Json fl.Float
    pub top_p : Json fl.Float
    pub max_tokens : Json fl.Float
    pub found : dict_get template setup.templates ≡ some sampling
    pub has_temperature : lookup_member "temperature" sampling ≡ some temperature
    pub has_top_p : lookup_member "top_p" sampling ≡ some top_p
    pub has_max_tokens : lookup_member "max_tokens" sampling ≡ some max_tokens

  payload-returns :
      (setup : Setup fl loads) (row : PromptRow fl.Float) (has : HasSampling setup row.template)
      → (payload : Json fl.Float) × (build_payload setup.model
            (build_messages setup.system_prompt setup.few_shot row.user_turn)
            has.sampling
            setup.response_format
          ≡ ok payload)
  unfolding build_payload
  payload-returns setup row has = (
    payload_of setup.model (build_messages setup.system_prompt setup.few_shot row.user_turn)
        has.temperature has.top_p has.max_tokens setup.response_format
        (lookup_member "top_k" has.sampling),
    rw
        (
          item-some "temperature" has.sampling has.has_temperature,
          item-some "top_p" has.sampling has.has_top_p,
          item-some "max_tokens" has.sampling has.has_max_tokens,
        )
        refl,
  )

  row_of-returns :
      (setup : Setup fl loads) (endpoint : Endpoint fl loads) (row : PromptRow fl.Float)
      (payload : Json fl.Float)
      → IsSound (endpoint setup.url setup.request_timeout row payload).posted
      → (made : GeneratedRow fl.Float) × (row_of fl loads setup endpoint row payload ≡ ok made)
  row_of-returns setup endpoint row payload sound =
      let reply : Reply fl.Float = endpoint setup.url setup.request_timeout row payload in
      let start : GeneratedRow fl.Float = set_received reply (blank_row row reply) in
      (
        (finish_row fl loads reply.posted start).1,
        rw (finish_row-Returns reply.posted sound start) refl,
      )

  -- A request comes back with a row if its template has its sampling and whatever the reply: an
  -- exception of the client, or any document, but for one whose `usage` is set to what is no object,
  -- or whose content is a text for which `json.loads` raises something else than a JSONDecodeError.
  pub generate_one-returns :
      (setup : Setup fl loads) (endpoint : Endpoint fl loads) (row : PromptRow fl.Float)
      → HasSampling setup row.template
      → ((payload : Json fl.Float)
          → IsSound (endpoint setup.url setup.request_timeout row payload).posted)
      → (made : GeneratedRow fl.Float) × (generate_one fl loads setup endpoint row ≡ ok made)
  unfolding generate_one
  generate_one-returns setup endpoint row has sound =
      let (payload, built) = payload-returns setup row has in
      let (made, returned) = row_of-returns setup endpoint row payload (sound payload) in
      (made, rw (has.found, built) returned)
