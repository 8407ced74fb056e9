-- ===== src/Pool/Names.antt =====
-- internal/pool/pool.go: the names of accounts.
use chatgpt_prism2api.Base.{
  ℕ, zero, suc, ◌≤◌, ◌≡◌, refl, Bool, true, not, ◌&&◌, ◌||◌, [], ◌∷◌, arith, leb, ◌==◌,
  if◌then◌else◌, length, select, select-All, All,
}
use chatgpt_prism2api.Base.Text.{Text, is_empty, trim_space}

-- The class `[a-zA-Z0-9_-]`.
unfoldable pub is_name_rune : ℕ → Bool
is_name_rune r =
    (leb 97 r && leb r 122)
    || (leb 65 r && leb r 90)
    || (leb 48 r && leb r 57)
    || (r == 95)
    || (r == 45)

unfoldable all_name_runes : Text → Bool
all_name_runes [] = true
all_name_runes (r ∷ s) = is_name_rune r && all_name_runes s

-- `ValidName`, which is `nameRe`.
unfoldable pub valid_name : Text → Bool
unfolding all_name_runes is_name_rune
valid_name s = not (is_empty s) && leb (length s) 32 && all_name_runes s

-- What stands before the first '@'.
unfoldable before_at : Text → Text
before_at [] = []
before_at (r ∷ s) = let rest = before_at s in if r == 64 then [] else r ∷ rest

abbrev at_most : ℕ → Text → Text
at_most n [] = []
at_most zero (r ∷ s) = []
at_most (suc n) (r ∷ s) = r ∷ at_most n s

-- `SanitizeName`: what is kept is ASCII, so that its length in bytes is its length.
unfoldable pub sanitize_name : Text → Text
unfolding before_at
sanitize_name raw = at_most 32 (select is_name_rune (before_at (trim_space raw)))

length-at_most : (n : ℕ) (s : Text) → length (at_most n s) ≤ n
length-at_most n [] = omega arith
length-at_most zero (r ∷ s) = omega arith
length-at_most (suc n) (r ∷ s) = omega (arith, length-at_most n s)

at_most-runes :
    (n : ℕ) (s : Text) → All (λ r. is_name_rune r ≡ true) s → all_name_runes (at_most n s) ≡ true
unfolding all_name_runes
at_most-runes n [] h = refl
at_most-runes zero (r ∷ s) h = refl
at_most-runes (suc n) (r ∷ s) h = rw (h.0) (at_most-runes n s h.1)

-- A sanitized name is valid, unless nothing of the text is left.
pub sanitize_name_valid :
    (raw : Text) → valid_name (sanitize_name raw) ≡ not (is_empty (sanitize_name raw))
unfolding valid_name sanitize_name
sanitize_name_valid raw =
    let kept = select is_name_rune (before_at (trim_space raw)) in
    ground (
      arith,
      length-at_most 32 kept,
      at_most-runes 32 kept (select-All is_name_rune (before_at (trim_space raw))),
    )
