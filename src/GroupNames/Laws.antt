-- ===== src/GroupNames/Laws.antt =====
-- What cleaning and renaming do to a list of group names.
use chatgpt_prism2api.Base.{
  ◌≡◌, refl, ◌≢◌, Bool, true, false, not, ◌&&◌, ◌||◌, List, [], ◌∷◌, arith, if◌then◌else◌,
  exists_in,
}
use chatgpt_prism2api.Base.Text.{Text, text_eq, text_eq_iff, trim_space, is_empty}
use chatgpt_prism2api.GroupNames.{has_name, clean_from, clean_group_names, rename_from, rename_in}

-- Each name stands once.
abbrev pub NoRepeat : List Text → Type 0
NoRepeat [] = Unit
NoRepeat (n ∷ ns) = (has_name n ns ≡ false) × NoRepeat ns

-- Whether a name is a non-empty trimming of a raw one.
abbrev pub stems_from : Text → Text → Bool
stems_from n raw = not (is_empty (trim_space raw)) && text_eq (trim_space raw) n

has_name-clean_from :
    (n : Text) (seen names : List Text)
    → has_name n (clean_from seen names) ≡ exists_in (stems_from n) names && not (has_name n seen)
unfolding clean_from has_name exists_in
has_name-clean_from n seen [] = refl
has_name-clean_from n seen (raw ∷ names) = ground (
  arith,
  text_eq_iff (trim_space raw) n,
  has_name-clean_from n seen names,
  has_name-clean_from n (trim_space raw ∷ seen) names,
)

clean_from-NoRepeat : (seen names : List Text) → NoRepeat (clean_from seen names)
unfolding clean_from has_name
clean_from-NoRepeat seen [] = tt
clean_from-NoRepeat seen (raw ∷ names) = ground (
  arith,
  text_eq_iff (trim_space raw) (trim_space raw),
  clean_from-NoRepeat seen names,
  clean_from-NoRepeat (trim_space raw ∷ seen) names,
  has_name-clean_from (trim_space raw) (trim_space raw ∷ seen) names,
)

-- A cleaned list has each name once, and a name is in it exactly when it is the non-empty trimming of
-- one of the raw names.
pub clean_group_names_lem :
    (names : List Text)
    → NoRepeat (clean_group_names names)
      × ((n : Text) → has_name n (clean_group_names names) ≡ exists_in (stems_from n) names)
unfolding clean_group_names has_name
clean_group_names_lem names =
    (clean_from-NoRepeat [] names, λ n. ground (arith, has_name-clean_from n [] names))

has_name-rename_from :
    (x old new : Text) (has_new : Bool) (gs : List Text)
    → old ≢ new
    → has_name x (rename_from old new has_new gs) ≡ (
        if text_eq x old
        then false
        else if text_eq x new
        then has_name new gs || (not has_new && has_name old gs)
        else has_name x gs)
unfolding rename_from has_name
has_name-rename_from x old new has_new [] ne = ground arith
has_name-rename_from x old new has_new (g ∷ gs) ne = ground (
  arith,
  text_eq_iff x old,
  text_eq_iff x new,
  text_eq_iff g old,
  text_eq_iff g new,
  text_eq_iff g x,
  text_eq_iff new x,
  has_name-rename_from x old new has_new gs ne,
  has_name-rename_from x old new true gs ne,
)

rename_from-NoRepeat :
    (old new : Text) (has_new : Bool) (gs : List Text)
    → old ≢ new
    → (has_name new gs ≡ true → has_new ≡ true)
    → NoRepeat gs
    → NoRepeat (rename_from old new has_new gs)
unfolding rename_from has_name
rename_from-NoRepeat old new has_new [] ne h u = tt
rename_from-NoRepeat old new has_new (g ∷ gs) ne h u = ground (
  arith,
  text_eq_iff g old,
  text_eq_iff g new,
  text_eq_iff new old,
  text_eq_iff new new,
  has_name-rename_from g old new has_new gs ne,
  has_name-rename_from new old new true gs ne,
  rename_from-NoRepeat old new has_new gs ne,
  rename_from-NoRepeat old new true gs ne,
)

-- Renaming between two different non-empty names, on a list with each name once, keeps each name
-- once. The old name is gone, the new one stands there if either did, and no other name comes or goes.
pub rename_in_lem :
    (raw_old raw_new x : Text) (gs : List Text)
    → let old = trim_space raw_old in
      let new = trim_space raw_new in
      is_empty old ≡ false
      → is_empty new ≡ false
      → old ≢ new
      → NoRepeat gs
      → NoRepeat (rename_in raw_old raw_new gs)
        × (has_name x (rename_in raw_old raw_new gs) ≡ (
            if text_eq x old
            then false
            else if text_eq x new
            then has_name new gs || has_name old gs
            else has_name x gs))
unfolding rename_in
rename_in_lem raw_old raw_new x gs eo en ne u =
    let old = trim_space raw_old in
    let new = trim_space raw_new in
    (
      ground (
        arith,
        text_eq_iff old new,
        rename_from-NoRepeat old new (has_name new gs) gs ne (λ (h : has_name new gs ≡ true). h) u,
      ),
      ground (
        arith,
        text_eq_iff old new,
        text_eq_iff x old,
        text_eq_iff x new,
        has_name-rename_from x old new (has_name new gs) gs ne,
      ),
    )
