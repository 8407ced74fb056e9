-- ===== src/Groups/Missing.antt =====
-- internal/groups/store.go: the check that the groups of a member are registered.
use chatgpt_prism2api.Base.{◌≡◌, refl, not, ◌&&◌, List, [], ◌∷◌, arith, exists_in}
use chatgpt_prism2api.Base.Text.{Text, text_eq_iff, trim_space}
use chatgpt_prism2api.Base.Dict.{lookup, text_key}
use chatgpt_prism2api.GroupNames.{has_name}
use chatgpt_prism2api.GroupNames.Laws.{NoRepeat, stems_from}
use chatgpt_prism2api.Groups.{Group, Registry, registered, missing_from, missing}

has_name-missing_from :
    (m : List (Text × Group)) (n : Text) (seen names : List Text)
    → has_name n (missing_from m seen names)
      ≡ exists_in (stems_from n) names && not (has_name n seen) && not (registered (lookup n m))
unfolding missing_from has_name exists_in
has_name-missing_from m n seen [] = refl
has_name-missing_from m n seen (raw ∷ names) = ground (
  arith,
  text_eq_iff (trim_space raw) n,
  has_name-missing_from m n seen names,
  has_name-missing_from m n (trim_space raw ∷ seen) names,
)

missing_from-NoRepeat :
    (m : List (Text × Group)) (seen names : List Text) → NoRepeat (missing_from m seen names)
unfolding missing_from has_name
missing_from-NoRepeat m seen [] = tt
missing_from-NoRepeat m seen (raw ∷ names) = ground (
  arith,
  text_eq_iff (trim_space raw) (trim_space raw),
  missing_from-NoRepeat m seen names,
  missing_from-NoRepeat m (trim_space raw ∷ seen) names,
  has_name-missing_from m (trim_space raw) (trim_space raw ∷ seen) names,
)

-- The missing names are the non-empty trimmings of the given ones that are not registered, each once.
pub missing_lem :
    (s : Registry) (names : List Text) (n : Text)
    → NoRepeat (missing s names)
      × (has_name n (missing s names)
          ≡ exists_in (stems_from n) names && not (registered (lookup n s.groups)))
unfolding missing has_name
missing_lem s names n = (
  missing_from-NoRepeat s.groups [] names,
  ground (arith, has_name-missing_from s.groups n [] names),
)
