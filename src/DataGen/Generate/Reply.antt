-- ===== src/DataGen/Generate/Reply.antt =====
-- data-gen/generate.py: a request, and the row that its reply becomes.
use aihomelab.Base.{
  String, List, dict_get, string_eq, key_error, type_error, Result, ok, Py, raise, lift, modify,
  attempt, ◌>>=◌, ◌>>◌,
}
use aihomelab.Base.Attempt.{◌>>=◌ as ◌>>?◌}
use aihomelab.Floats.{Floats}
use aihomelab.Parsers.Fio.{Json, string, object, Items, Members, end, get_member, get_or}
use aihomelab.DataGen.Generate.Request.{
  PromptRow, GeneratedRow, Posted, answered, failed, Reply, Decoded, blank_row, set_received,
  set_http_error, set_raw, set_finish, set_tokens, set_decoded, after_block, item, item_0,
  build_payload, build_messages, or_raise,
}

module _ (fl : Floats) (loads : String → Decoded fl.Float) where
  -- `json.loads(content)` and its branches; a content that is no text is a TypeError.
  unfoldable pub parse_content : Json fl.Float → Py (GeneratedRow fl.Float) (Unit {0})
  unfolding ◌>>=◌
  parse_content (string s) = set_decoded (loads s)
  parse_content _ = raise (type_error "the JSON object must be str, bytes or bytearray")

  -- The block that takes the reply apart; what it has set before an exception stays.
  unfoldable pub read_reply : Json fl.Float → Py (GeneratedRow fl.Float) (Unit {0})
  unfolding parse_content get_member get_or ◌>>=◌
  read_reply body = do
    choices ← lift (item "choices" body)
    choice ← lift (item_0 choices)
    said ← lift (item "message" choice)
    content ← lift (item "content" said)
    modify (set_raw content)
    reason ← lift (get_member fl "finish_reason" choice)
    modify (set_finish reason)
    usage ← lift (get_or fl "usage" (object end) body)
    prompt ← lift (get_member fl "prompt_tokens" usage)
    completion ← lift (get_member fl "completion_tokens" usage)
    modify (set_tokens prompt completion)
    parse_content content

  unfoldable pub finish_row : Posted fl.Float → Py (GeneratedRow fl.Float) (Unit {0})
  unfolding read_reply
  finish_row (failed text) = modify (set_http_error text)
  finish_row (answered body) = do outcome ← attempt (read_reply body); after_block outcome

  -- What the run gives to every request
  pub record Setup : Type 0 where
    pub url : String
    pub model : String
    pub system_prompt : String
    pub few_shot : Items fl.Float
    pub response_format : Json fl.Float
    -- The `sampling` of each template
    pub templates : List (String × Members fl.Float)
    pub request_timeout : fl.Float

  -- The endpoint: the reply to a payload, sent for a prompt to a URL with a timeout.
  abbrev pub Endpoint : Type 0
  Endpoint = String → fl.Float → PromptRow fl.Float → Json fl.Float → Reply fl.Float

  abbrev pub sampling_of : Setup → String → Result (Members fl.Float)
  sampling_of setup template = or_raise (key_error template) (dict_get template setup.templates)

  abbrev pub row_of :
      Setup → Endpoint → PromptRow fl.Float → Json fl.Float → Result (GeneratedRow fl.Float)
  row_of setup endpoint row payload =
      let reply = endpoint setup.url setup.request_timeout row payload in
      let (outcome, made) = finish_row reply.posted (set_received reply (blank_row row reply)) in
      outcome >>? λ _. ok made

  unfoldable pub generate_one :
      Setup → Endpoint → PromptRow fl.Float → Result (GeneratedRow fl.Float)
  unfolding build_payload finish_row
  generate_one setup endpoint row = sampling_of setup row.template >>? λ sampling.
      build_payload setup.model (build_messages setup.system_prompt setup.few_shot row.user_turn)
        sampling setup.response_format
      >>? row_of setup endpoint row
