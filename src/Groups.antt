-- ===== src/Groups.antt =====
-- internal/groups/store.go: the registry of groups.
-- Every method holds the mutex and is one step. Whether the backend takes a write is an argument of the
-- methods that save; `saved` is what it took last. A time stamp is the text that the clock gives. The
-- cascades to accounts and keys are answered as the two names that the hooks are called with.
pub mod Rollback
pub mod Missing
use chatgpt_prism2api.Base.{
  ℕ, Bool, true, false, not, ◌&&◌, ◌||◌, Option, none, some, List, [], ◌∷◌, ltb, if◌then◌else◌,
  length,
}
use chatgpt_prism2api.Base.Int.{ℤ, pos, ltb_ℤ}
use chatgpt_prism2api.Base.Text.{Text, text_eq, trim_space, is_empty}
use chatgpt_prism2api.Base.Dict.{lookup, insert, erase, text_key}
use chatgpt_prism2api.GroupNames.{has_name, clean_group_names}

-- `Config`.
pub record GroupConfig : Type 0 where
  pub rpm : ℤ
  pub daily_max : ℤ

-- `Group`.
pub record Group : Type 0 where
  pub name : Text
  pub description : Text
  pub created_at : Text
  pub config : Option GroupConfig

-- `Store`.
pub record Registry : Type 0 where
  pub groups : List (Text × Group)
  pub saved : List (Text × Group)

-- The errors of the methods.
pub data GroupError : Type 0 where
  name_empty name_too_long save_failed : GroupError
  already_exists not_found target_exists : Text → GroupError
  unknown_groups : List Text → GroupError

pub data GroupResult : Type 0 where
  ok : Group → GroupResult
  refused : GroupError → GroupResult

abbrev pub max_name_runes : ℕ
max_name_runes = 64

-- `empty` on a configuration that is given.
unfoldable pub no_overlay : GroupConfig → Bool
no_overlay c = not (ltb_ℤ (pos 0) c.rpm) && not (ltb_ℤ (pos 0) c.daily_max)

-- `if g.Config.empty() { g.Config = nil }`.
abbrev pub overlay_or_nil : Option GroupConfig → Option GroupConfig
overlay_or_nil none = none
overlay_or_nil (some c) = if no_overlay c then none else some c

-- The loop of `loadJSON` over the records it read.
unfoldable pub load_groups : List (Text × Group) → List Group → List (Text × Group)
load_groups m [] = m
load_groups m (g ∷ gs) =
    let name = trim_space g.name in
    load_groups
      (if is_empty name
        then m
        else insert name (record g { name = name; config = overlay_or_nil g.config }) m)
      gs

-- `Get`.
unfoldable pub get_group : Registry → Text → Option Group
get_group s name = lookup (trim_space name) s.groups

-- `Exists`.
unfoldable pub group_exists : Registry → Text → Bool
group_exists s name = elim (get_group s name) [ none ↦ false | some g ↦ true ]

abbrev limit_of_config : Option GroupConfig → ℤ × ℤ
limit_of_config none = (pos 0, pos 0)
limit_of_config (some c) = (c.rpm, c.daily_max)

abbrev limit_of_group : Option Group → ℤ × ℤ
limit_of_group none = (pos 0, pos 0)
limit_of_group (some g) = limit_of_config g.config

-- `Limit`.
unfoldable pub group_limit : Registry → Text → ℤ × ℤ
unfolding get_group
group_limit s name = limit_of_group (get_group s name)

abbrev pub registered : Option Group → Bool
registered none = false
registered (some g) = true

-- The loop of `Missing`; `seen` holds the names written so far.
unfoldable pub missing_from : List (Text × Group) → List Text → List Text → List Text
missing_from m seen [] = []
missing_from m seen (raw ∷ names) =
    let n = trim_space raw in
    let skipped = missing_from m seen names in
    let written = n ∷ missing_from m (n ∷ seen) names in
    if is_empty n || registered (lookup n m) || has_name n seen then skipped else written

-- `Missing`.
unfoldable pub missing : Registry → List Text → List Text
unfolding missing_from
missing s names = missing_from s.groups [] names

abbrev members_of : List Text → List Text → Option GroupError × List Text
members_of [] cleaned = (none, cleaned)
members_of (n ∷ ns) cleaned = (some (unknown_groups (n ∷ ns)), [])

-- `SetGroups` with `ValidateNames`: the error, or what the member is given.
unfoldable pub set_member_groups : Registry → List Text → Option GroupError × List Text
set_member_groups s names =
    let cleaned = clean_group_names names in members_of (missing s cleaned) cleaned

-- `normalizeName`: the error, if there is one.
unfoldable pub name_error : Text → Option GroupError
name_error name =
    let trimmed = trim_space name in
    if is_empty trimmed
    then some name_empty
    else if ltb max_name_runes (length trimmed)
    then some name_too_long
    else none

abbrev pub with_groups : Registry → List (Text × Group) → Registry
with_groups s m = record { groups = m; saved = m }

-- `Create` behind `normalizeName` and its lookup. A group whose write fails is deleted again.
unfoldable pub create_found :
    Registry → Text → Text → Text → Bool → Option Group → Registry × GroupResult
create_found s trimmed description stamp saves (some g) = (s, refused (already_exists trimmed))
create_found s trimmed description stamp saves none =
    let g : Group = record {
      name = trimmed;
      description = trim_space description;
      created_at = stamp;
      config = none;
    } in
    let m = insert trimmed g s.groups in
    if saves
    then (with_groups s m, ok g)
    else (record s { groups = erase trimmed m }, refused save_failed)

unfoldable pub create_named :
    Registry → Text → Text → Text → Bool → Option GroupError → Registry × GroupResult
unfolding create_found
create_named s name description stamp saves (some e) = (s, refused e)
create_named s name description stamp saves none =
    create_found s (trim_space name) description stamp saves (lookup (trim_space name) s.groups)

-- `Create`.
unfoldable pub create_group : Registry → Text → Text → Text → Bool → Registry × GroupResult
unfolding create_named name_error
create_group s name description stamp saves =
    create_named s name description stamp saves (name_error name)

abbrev pub new_description : Option Text → Text → Text
new_description none old = old
new_description (some d) old = trim_space d

abbrev pub new_config : Option GroupConfig → Option GroupConfig → Option GroupConfig
new_config none old = old
new_config (some c) old = if no_overlay c then none else some c

-- `Update` behind its lookup. A change whose write fails stays in the registry.
unfoldable pub update_found :
    Registry
    → Text
    → Option Text
    → Option GroupConfig
    → Bool
    → Option Group
    → Registry × GroupResult
update_found s key description cfg saves none = (s, refused (not_found key))
update_found s key description cfg saves (some g) =
    let g' = record g {
      description = new_description description g.description;
      config = new_config cfg g.config;
    } in
    let m = insert key g' s.groups in
    if saves then (with_groups s m, ok g') else (record s { groups = m }, refused save_failed)

-- `Update`.
unfoldable pub update_group :
    Registry → Text → Option Text → Option GroupConfig → Bool → Registry × GroupResult
unfolding update_found
update_group s name description cfg saves =
    update_found s (trim_space name) description cfg saves (lookup (trim_space name) s.groups)

-- The end of `Rename`, for two different names of which the new one may be taken. A change whose write
-- fails is taken back.
unfoldable pub rename_found :
    Registry → Text → Text → Bool → Group → Registry × GroupResult × Option (Text × Text)
rename_found s old trimmed saves g =
    let g' = record g { name = trimmed } in
    let m = insert trimmed g' (erase old s.groups) in
    if text_eq trimmed old
    then (s, ok g, none)
    else if registered (lookup trimmed s.groups)
    then (s, refused (target_exists trimmed), none)
    else if saves
    then (with_groups s m, ok g', some (old, trimmed))
    else (record s { groups = insert old g (erase trimmed m) }, refused save_failed, none)

unfoldable pub rename_named :
    Registry
    → Text
    → Text
    → Bool
    → Option GroupError
    → Option Group
    → Registry × GroupResult × Option (Text × Text)
unfolding rename_found
rename_named s old trimmed saves (some e) found = (s, refused e, none)
rename_named s old trimmed saves none none = (s, refused (not_found old), none)
rename_named s old trimmed saves none (some g) = rename_found s old trimmed saves g

-- `Rename`: the registry, the result, and the cascade.
unfoldable pub rename_registered :
    Registry → Text → Text → Bool → Registry × GroupResult × Option (Text × Text)
unfolding rename_named name_error
rename_registered s old_name new_name saves =
    rename_named s (trim_space old_name) (trim_space new_name) saves (name_error new_name)
      (lookup (trim_space old_name) s.groups)

-- `Delete`; a write that fails is ignored by the source.
unfoldable pub delete_group : Registry → Text → Bool → Registry × Bool
delete_group s name saves =
    let key = trim_space name in
    let m = erase key s.groups in
    if registered (lookup key s.groups)
    then ((if saves then with_groups s m else record s { groups = m }), true)
    else (s, false)
