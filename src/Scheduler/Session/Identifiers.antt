-- ===== src/Scheduler/Session/Identifiers.antt =====
-- The form of the session identifiers.
use chatgpt_prism2api.Base.{
  ◌≤◌, ◌≡◌, refl, ◌⊎◌, inl, inr, Bool, true, false, Option, none, some, List, [], ◌∷◌, ◌++◌, arith,
  if◌then◌else◌, Bool-cases, exists_in,
}
use chatgpt_prism2api.Base.Text.{Text, codes, text_eq, is_empty}
use chatgpt_prism2api.Scheduler.Session.{
  Json, utf8_length, normalize_id, header_value, any_case, first_id, claude_metadata_session_id,
  matched_or, or_next, conversation_id, with_conversation, payload_session_ids, extract_session_ids,
}

-- An identifier of at most 256 bytes; it may be empty.
abbrev IsShort : Text → Type 0
IsShort s = utf8_length s ≤ 256

-- The prefixes of an identifier that comes alone.
abbrev tags : List Text
tags =
    codes "claude:"
    ∷ codes "codex:"
    ∷ codes "header:"
    ∷ codes "affinity:"
    ∷ codes "clientreq:"
    ∷ codes "session:"
    ∷ codes "conv:"
    ∷ codes "user:"
    ∷ []

abbrev IsTag : Text → Type 0
IsTag tag = exists_in (text_eq tag) tags ≡ true

-- The tag, and behind it an identifier that is neither empty nor long.
abbrev IsTagged : Text → Text → Type 0
IsTagged tag t = (sid : Text) × (t ≡ tag ++ sid) × (is_empty sid ≡ false) × IsShort sid

-- No identifier, one, or a prompt cache key with the conversation.
abbrev pub IsSession : Text × Text → Type 0
IsSession (primary, fallback) =
    ((primary ≡ []) × (fallback ≡ []))
    ⊎ (((tag : Text) × IsTag tag × IsTagged tag primary × (fallback ≡ []))
        ⊎ (IsTagged (codes "pck:") primary × ((fallback ≡ []) ⊎ IsTagged (codes "conv:") fallback)))

normalize_id-IsShort : (raw : Text) → IsShort (normalize_id raw)
unfolding normalize_id utf8_length
normalize_id-IsShort raw = ground arith

is_claude : IsTag (codes "claude:")
unfolding exists_in text_eq
is_claude = refl

is_codex : IsTag (codes "codex:")
unfolding exists_in text_eq
is_codex = refl

is_header : IsTag (codes "header:")
unfolding exists_in text_eq
is_header = refl

is_affinity : IsTag (codes "affinity:")
unfolding exists_in text_eq
is_affinity = refl

is_clientreq : IsTag (codes "clientreq:")
unfolding exists_in text_eq
is_clientreq = refl

is_session : IsTag (codes "session:")
unfolding exists_in text_eq
is_session = refl

is_conv : IsTag (codes "conv:")
unfolding exists_in text_eq
is_conv = refl

is_user : IsTag (codes "user:")
unfolding exists_in text_eq
is_user = refl

or_next-IsSession :
    (tag sid : Text) (rest : Text × Text)
    → IsTag tag
    → IsShort sid
    → IsSession rest
    → IsSession (or_next tag sid rest)
unfolding or_next
or_next-IsSession tag sid rest known h k = elim (Bool-cases (is_empty sid)) [
  | inl q ↦ rw q k
  | inr q ↦ rw q (inr (inl (tag, known, (sid, refl, q, h), refl)))
]

with_conversation-IsSession :
    (key conversation : Text) (rest : Text × Text)
    → IsShort key
    → IsShort conversation
    → IsSession rest
    → IsSession (with_conversation key conversation rest)
with_conversation-IsSession key conversation rest h c k = elim (Bool-cases (is_empty key)) [
  | inl q ↦ rw q k
  | inr q ↦ elim (Bool-cases (is_empty conversation)) [
    | inl r ↦ rw (q, r) (inr (inr ((key, refl, q, h), inl refl)))
    | inr r ↦ rw (q, r) (inr (inr ((key, refl, q, h), inr (conversation, refl, r, c))))
  ]
]

if_IsShort : (b : Bool) (s t : Text) → IsShort s → IsShort t → IsShort (if b then s else t)
if_IsShort true s t h k = h
if_IsShort false s t h k = k

empty-IsShort : IsShort []
unfolding utf8_length
empty-IsShort = omega arith

conversation_id-IsShort : (payload : Option Json) → IsShort (conversation_id payload)
unfolding conversation_id
conversation_id-IsShort payload = if_IsShort _ _ _ (normalize_id-IsShort _) (normalize_id-IsShort _)

payload-IsSession : (payload : Option Json) → IsSession (payload_session_ids payload)
unfolding payload_session_ids
payload-IsSession payload =
    or_next-IsSession (codes "session:") _ _ is_session (normalize_id-IsShort _) (
      or_next-IsSession (codes "session:") _ _ is_session (normalize_id-IsShort _) (
        with_conversation-IsSession _ _ _ (normalize_id-IsShort _) (conversation_id-IsShort payload)
          (or_next-IsSession (codes "conv:") _ _ is_conv (conversation_id-IsShort payload) (
            or_next-IsSession (codes "user:") _ _ is_user (normalize_id-IsShort _) (
              or_next-IsSession (codes "conv:") _ _ is_conv (normalize_id-IsShort _)
                (inl (refl, refl)))))))

first_id-IsShort : (raws : List Text) (rest : Text) → IsShort rest → IsShort (first_id raws rest)
unfolding first_id
first_id-IsShort [] rest h = h
first_id-IsShort (raw ∷ raws) rest h =
    if_IsShort (is_empty (normalize_id raw)) (first_id raws rest) (normalize_id raw)
      (first_id-IsShort raws rest h) (normalize_id-IsShort raw)

any_case-IsShort :
    (canonical : Text → Text) (equal_fold : Text → Text → Bool) (name : Text)
    (headers : List (Text × List Text))
    → IsShort (any_case canonical equal_fold name headers)
unfolding any_case
any_case-IsShort canonical equal_fold name [] = empty-IsShort
any_case-IsShort canonical equal_fold name ((key, values) ∷ more) =
    let rest = any_case-IsShort canonical equal_fold name more in
    if_IsShort (equal_fold key name) _ _ (first_id-IsShort values _ rest) rest

header_value-IsShort :
    (canonical : Text → Text) (equal_fold : Text → Text → Bool) (headers : List (Text × List Text))
    (name : Text)
    → IsShort (header_value canonical equal_fold headers name)
unfolding header_value
header_value-IsShort canonical equal_fold headers name =
    if_IsShort _ _ _ (any_case-IsShort canonical equal_fold name headers) (normalize_id-IsShort _)

matched-IsShort : (m : Option Text) (rest : Text) → IsShort rest → IsShort (matched_or m rest)
matched-IsShort none rest h = h
matched-IsShort (some s) rest h = normalize_id-IsShort s

claude-IsShort :
    (read : Text → Option Json) (cpa navos : Text → Option Text) (payload : Option Json)
    → IsShort (claude_metadata_session_id read cpa navos payload)
unfolding claude_metadata_session_id
claude-IsShort read cpa navos payload = if_IsShort _ _ _ empty-IsShort (
    if_IsShort _ _ _ (normalize_id-IsShort _)
      (matched-IsShort (cpa _) _ (matched-IsShort (navos _) [] empty-IsShort)))

-- Whatever its headers and its payload are, a request names no session; or one identifier, not empty and of
-- at most 256 bytes, behind one of the eight tags of the sources; or a prompt cache key of that form behind
-- `pck:`, next to which alone a second identifier may stand, of that form behind `conv:`.
pub extract_session_ids_lem :
    (canonical : Text → Text) (equal_fold : Text → Text → Bool) (read : Text → Option Json)
    (cpa navos : Text → Option Text) (headers : List (Text × List Text)) (payload : Option Json)
    → IsSession (extract_session_ids canonical equal_fold read cpa navos headers payload)
unfolding extract_session_ids
extract_session_ids_lem canonical equal_fold read cpa navos headers payload =
    let h = header_value-IsShort canonical equal_fold headers in
    or_next-IsSession (codes "claude:") _ _ is_claude (h _) (
      or_next-IsSession (codes "claude:") _ _ is_claude (claude-IsShort read cpa navos payload) (
        or_next-IsSession (codes "codex:") _ _ is_codex (h _) (
          or_next-IsSession (codes "codex:") _ _ is_codex (h _) (
            or_next-IsSession (codes "header:") _ _ is_header (h _) (
              or_next-IsSession (codes "affinity:") _ _ is_affinity (h _) (
                or_next-IsSession (codes "clientreq:") _ _ is_clientreq (h _)
                  (payload-IsSession payload)))))))
