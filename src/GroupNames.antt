-- ===== src/GroupNames.antt =====
-- internal/pool/account.go: lists of group names, as `SetGroups` and `RenameGroup` write them.
-- (groups/store.go has a `cleanGroupNames` of the same text.)
pub mod Laws
use chatgpt_prism2api.Base.{
  ℕ, ◌≡◌, refl, Bool, true, false, ◌&&◌, ◌||◌, List, [], ◌∷◌, arith, if◌then◌else◌,
}
use chatgpt_prism2api.Base.Text.{Text, codes, text_eq, trim_space, is_empty}

-- Whether a name is in a list: the lookup in a set of names, and the loops that search one.
unfoldable pub has_name : Text → List Text → Bool
has_name n [] = false
has_name n (x ∷ xs) = text_eq x n || has_name n xs

-- The loop of `cleanGroupNames`; `seen` holds the names written so far.
unfoldable pub clean_from : List Text → List Text → List Text
clean_from seen [] = []
clean_from seen (raw ∷ names) =
    let n = trim_space raw in
    let skipped = clean_from seen names in
    let kept = n ∷ clean_from (n ∷ seen) names in
    if is_empty n || has_name n seen then skipped else kept

-- `cleanGroupNames`: trimmed, without empty names, each name once, in order.
unfoldable pub clean_group_names : List Text → List Text
unfolding clean_from
clean_group_names names = clean_from [] names

-- The loop of `RenameGroup`; `has_new` is its variable `hasNew`.
unfoldable pub rename_from : Text → Text → Bool → List Text → List Text
rename_from old new has_new [] = []
rename_from old new has_new (g ∷ gs) =
    let dropped = rename_from old new has_new gs in
    let replaced = new ∷ rename_from old new true gs in
    let kept = g ∷ rename_from old new has_new gs in
    if text_eq g old then (if has_new then dropped else replaced) else kept

-- `RenameGroup` on the list of names. Where the old name does not occur the list stays as it is.
unfoldable pub rename_in : Text → Text → List Text → List Text
unfolding rename_from has_name
rename_in raw_old raw_new gs =
    let old = trim_space raw_old in
    let new = trim_space raw_new in
    if is_empty old || is_empty new || text_eq old new
    then gs
    else if has_name old gs
    then rename_from old new (has_name new gs) gs
    else gs
