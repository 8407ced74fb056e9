-- ===== src/Pool/Secret.antt =====
-- internal/secret/secret.go: the encryption of the credentials in the documents of the accounts.
-- AES-256-GCM with the base64 of its output, SHA-256 and the hexadecimal decoder are parameters. A byte
-- string is a Text; a nonce is a number, and none when the random source fails.
use chatgpt_prism2api.Base.{
  ℕ, ◌≡◌, refl, Bool, true, false, not, ◌||◌, Option, none, some, [], ◌∷◌, ◌++◌, arith, ◌==◌,
  if◌then◌else◌, length,
}
use chatgpt_prism2api.Base.Text.{Text, codes, is_empty, has_prefix, trim_space}

abbrev pub prefix : Text
prefix = codes "enc:v1:"

-- `Enabled`, for a key.
abbrev pub is_enabled : Text → Bool
is_enabled key = length key == 32

-- `strings.TrimPrefix`.
unfoldable trim_prefix : Text → Text → Text
trim_prefix s [] = s
trim_prefix [] (b ∷ t) = []
trim_prefix (a ∷ s) (b ∷ t) = trim_prefix s t

-- `deriveKey`, of `hex.DecodeString` and `sha256.Sum256`.
abbrev or_hash : Option Text → Text → Text
or_hash none hash = hash
or_hash (some b) hash = if length b == 32 then b else hash

unfoldable pub derive_key : (Text → Option Text) → (Text → Text) → Text → Text
derive_key decode_hex sha256 raw =
    let r = trim_space raw in if is_empty r then [] else or_hash (decode_hex r) (sha256 r)

module _ (encrypt : Text → ℕ → Text → Text) where
  abbrev seal_with : Text → Option ℕ → Text → Text
  seal_with key none plain = plain
  seal_with key (some nonce) plain = prefix ++ encrypt key nonce plain

  -- `Seal`.
  unfoldable pub seal : Text → Option ℕ → Text → Text
  seal key nonce plain =
      if is_empty plain || has_prefix plain prefix
      then plain
      else if not (is_enabled key)
      then plain
      else seal_with key nonce plain

module _ (decrypt : Text → Text → Option Text) where
  abbrev or_sealed : Option Text → Text → Text
  or_sealed none sealed = sealed
  or_sealed (some plain) sealed = plain

  -- `Open`.
  unfoldable pub open_sealed : Text → Text → Text
  unfolding trim_prefix
  open_sealed key sealed =
      if not (has_prefix sealed prefix)
      then sealed
      else if not (is_enabled key)
      then sealed
      else or_sealed (decrypt key (trim_prefix sealed prefix)) sealed

has_prefix-append : (s : Text) → has_prefix (prefix ++ s) prefix ≡ true
unfolding has_prefix
has_prefix-append s = refl

trim_prefix-append : (s : Text) → trim_prefix (prefix ++ s) prefix ≡ s
unfolding trim_prefix
trim_prefix-append s = refl

-- What is sealed under a key, or without one, opens to the plain text again under the same key, whatever
-- the random source gives, if the plain text does not itself begin with the mark of sealed texts and the
-- decryption undoes the encryption.
pub open_sealed-seal :
    (encrypt : Text → ℕ → Text → Text) (decrypt : Text → Text → Option Text)
    → ((key : Text) (nonce : ℕ) (plain : Text) → decrypt key (encrypt key nonce plain) ≡ some plain)
    → (key : Text) (nonce : Option ℕ) (plain : Text) → has_prefix plain prefix ≡ false
    → open_sealed decrypt key (seal encrypt key nonce plain) ≡ plain
unfolding open_sealed seal
open_sealed-seal encrypt decrypt back key none plain h = ground arith
open_sealed-seal encrypt decrypt back key (some nonce) plain h = ground (
  arith,
  has_prefix-append (encrypt key nonce plain),
  trim_prefix-append (encrypt key nonce plain),
  back key nonce plain,
)

-- A pass phrase that is not blank always gives a key that encrypts, and a blank one gives none, for a hash
-- of 32 bytes.
pub derive_key_enables :
    (decode_hex : Text → Option Text) (sha256 : Text → Text)
    → ((s : Text) → length (sha256 s) ≡ 32)
    → (raw : Text) → is_enabled (derive_key decode_hex sha256 raw) ≡ not (is_empty (trim_space raw))
unfolding derive_key
derive_key_enables decode_hex sha256 h raw =
    hash_enables (trim_space raw) (decode_hex (trim_space raw)) (sha256 (trim_space raw))
      (h (trim_space raw))
  where
    hash_enables :
        (r : Text) (b : Option Text) (hash : Text)
        → length hash ≡ 32
        → is_enabled (if is_empty r then [] else or_hash b hash) ≡ not (is_empty r)
    hash_enables [] b hash e = refl
    hash_enables (c ∷ r) none hash e = ground arith
    hash_enables (c ∷ r) (some b) hash e = ground arith
