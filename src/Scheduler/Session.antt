-- ===== src/Scheduler/Session.antt =====
-- internal/scheduler/session.go: the session that a request names.
-- The canonical spelling of header names, the comparison without case, the reader of JSON and the two regular
-- expressions (with their first group) are parameters. A path has one name or two. A payload is none when it is empty or no JSON.
pub mod Identifiers
use chatgpt_prism2api.Base.{
  ℕ, suc, ◌+◌, ◌≤◌, ◌≡◌, refl, ◌⊎◌, inl, inr, Bool, true, false, not, ◌&&◌, ◌||◌, Option, none,
  some, List, [], ◌∷◌, ◌++◌, arith, ltb, leb, ◌==◌, if◌then◌else◌, exists_in, Bool-cases,
}
use chatgpt_prism2api.Base.Text.{Text, codes, text_eq, is_empty, trim_space, has_prefix}

mutual
  pub data Json : Type 0 where
    text : Text → Json
    object : Fields → Json
    other : Json

  pub data Fields : Type 0 where
    no_fields : Fields
    field : Text → Json → Fields → Fields

-- `unicode.IsControl`.
unfoldable is_control : ℕ → Bool
is_control c = ltb c 32 || (leb 127 c && leb c 159)

-- `len` of a string, from its runes.
unfoldable pub utf8_length : Text → ℕ
utf8_length [] = 0
utf8_length (c ∷ s) =
    (if ltb c 0x80 then 1 else if ltb c 0x800 then 2 else if ltb c 0x10000 then 3 else 4)
    + utf8_length s

-- `normalizeID`.
unfoldable pub normalize_id : Text → Text
unfolding is_control
normalize_id raw =
    let trimmed = trim_space raw in
    if exists_in is_control raw
    then []
    else if is_empty trimmed || ltb 256 (utf8_length trimmed)
    then []
    else trimmed

-- The lookups of `jsonPathString`. A text in place of an object is answered for the last name of a path.
unfoldable field_of : Text → Fields → Option Json
field_of name no_fields = none
field_of name (field n v fs) =
    let rest = field_of name fs in if text_eq n name then some v else rest

abbrev json_text : Option Json → Text
json_text (some (text s)) = s
json_text _ = []

abbrev step_into : Option Json → Text → Option Json
step_into (some (object fs)) name = field_of name fs
step_into _ name = none

unfoldable pub json_path_string : Option Json → Text → List Text → Text
unfolding field_of
json_path_string (some (text s)) name [] = s
json_path_string v name [] = json_text (step_into v name)
json_path_string (some (text s)) name (last ∷ []) = if text_eq name last then s else []
json_path_string v name (next ∷ names) = json_path_string (step_into v name) next names

abbrev first_value : List Text → Text
first_value [] = []
first_value (v ∷ vs) = v

unfoldable first_id : List Text → Text → Text
first_id [] rest = rest
first_id (raw ∷ raws) rest =
    let later = first_id raws rest in
    if is_empty (normalize_id raw) then later else normalize_id raw

module _ (canonical : Text → Text) (equal_fold : Text → Text → Bool) where
  -- `Header.Get`.
  unfoldable header_get : Text → List (Text × List Text) → Text
  header_get name [] = []
  header_get name ((key, values) ∷ more) =
      let rest = header_get name more in
      if text_eq key (canonical name) then first_value values else rest

  unfoldable any_case : Text → List (Text × List Text) → Text
  unfolding first_id
  any_case name [] = []
  any_case name ((key, values) ∷ more) =
      let rest = any_case name more in if equal_fold key name then first_id values rest else rest

  -- `headerValue`.
  unfoldable pub header_value : List (Text × List Text) → Text → Text
  unfolding header_get any_case normalize_id
  header_value headers name =
      let v = normalize_id (header_get name headers) in
      if is_empty v then any_case name headers else v

abbrev matched_or : Option Text → Text → Text
matched_or none rest = rest
matched_or (some m) rest = normalize_id m

-- `claudeMetadataSessionID`, given the payload and how to read a text as JSON.
unfoldable pub claude_metadata_session_id :
    (Text → Option Json) → (Text → Option Text) → (Text → Option Text) → Option Json → Text
unfolding json_path_string normalize_id
claude_metadata_session_id read cpa navos payload =
    let user_id = trim_space (json_path_string payload (codes "metadata") (codes "user_id" ∷ [])) in
    if is_empty user_id
    then []
    else if has_prefix user_id (codes "{")
    then normalize_id (json_path_string (read user_id) (codes "session_id") [])
    else matched_or (cpa user_id) (matched_or (navos user_id) [])

-- `return prefix + sid, ""`, if there is one.
unfoldable or_next : Text → Text → Text × Text → Text × Text
or_next prefix sid rest = if is_empty sid then rest else (prefix ++ sid, [])

-- The conversation that a payload names.
unfoldable conversation_id : Option Json → Text
unfolding json_path_string normalize_id
conversation_id payload =
    let by_id = normalize_id (json_path_string payload (codes "conversation") (codes "id" ∷ [])) in
    let itself = normalize_id (json_path_string payload (codes "conversation") []) in
    if not (is_empty by_id) then by_id else itself

-- `return "pck:" + sid, conversationID`, if there is such an identifier.
abbrev with_conversation : Text → Text → Text × Text → Text × Text
with_conversation key conversation rest =
    if is_empty key
    then rest
    else (codes "pck:" ++ key, if is_empty conversation then [] else codes "conv:" ++ conversation)

-- The part of `ExtractSessionIDs` on a payload.
unfoldable pub payload_session_ids : Option Json → Text × Text
unfolding or_next conversation_id
payload_session_ids payload =
    let at = λ (name : Text). normalize_id (json_path_string payload name []) in
    let user_id =
      normalize_id (json_path_string payload (codes "metadata") (codes "user_id" ∷ [])) in
    let conversation = conversation_id payload in
    or_next (codes "session:") (at (codes "session_id")) (
      or_next (codes "session:") (at (codes "sessionId")) (
        with_conversation (at (codes "prompt_cache_key")) conversation (
          or_next (codes "conv:") conversation (
            or_next (codes "user:") user_id
              (or_next (codes "conv:") (at (codes "conversation_id")) ([], []))))))

module _ (canonical : Text → Text) (equal_fold : Text → Text → Bool) (read : Text → Option Json)
    (cpa navos : Text → Option Text) where
  -- `ExtractSessionIDs`.
  unfoldable pub extract_session_ids : List (Text × List Text) → Option Json → Text × Text
  unfolding header_value claude_metadata_session_id payload_session_ids or_next
  extract_session_ids headers payload =
      let header = λ (name : Text). header_value canonical equal_fold headers name in
      or_next (codes "claude:") (header (codes "X-Claude-Code-Session-Id")) (
        or_next (codes "claude:") (claude_metadata_session_id read cpa navos payload) (
          or_next (codes "codex:") (header (codes "Session-Id")) (
            or_next (codes "codex:") (header (codes "Session_id")) (
              or_next (codes "header:") (header (codes "X-Session-ID")) (
                or_next (codes "affinity:") (header (codes "X-Session-Affinity")) (
                  or_next (codes "clientreq:") (header (codes "X-Client-Request-Id"))
                    (payload_session_ids payload)))))))
