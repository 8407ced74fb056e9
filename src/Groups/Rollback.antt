-- ===== src/Groups/Rollback.antt =====
-- internal/groups/store.go: what the methods that save leave in the registry, when they succeed and when
-- they fail.
use chatgpt_prism2api.Base.{
  ◌≡◌, ◌≢◌, refl, Bool, true, false, Option, none, some, List, arith, if◌then◌else◌,
}
use chatgpt_prism2api.Base.Text.{Text, text_eq, text_eq_iff, text_eq_refl, trim_space}
use chatgpt_prism2api.Base.Dict.{lookup, insert, erase, text_key, lookup-insert, lookup-erase}
use chatgpt_prism2api.Groups.{
  Group, GroupConfig, Registry, GroupError, GroupResult, ok, refused, save_failed, create_found,
  create_named, create_group, name_error, update_found, update_group, new_description, new_config,
}

taken_back :
    (m : List (Text × Group)) (n j : Text) (g : Group)
    → lookup n m ≡ none
    → lookup j (erase n (insert n g m)) ≡ lookup j m
taken_back m n j g h =
    ground (arith, lookup-erase n j (insert n g m), lookup-insert n j g m, text_eq_iff n j)

-- A refusal leaves every name as it was, in memory and in what is saved.
abbrev IsSame : Registry → Registry → Text → Type 0
IsSame s t j = (lookup j t.groups ≡ lookup j s.groups) × (t.saved ≡ s.saved)

-- What creating a group of a name leaves at any name `j`: with a success, the group at its name, which
-- was free, and every other as before, all of it saved.
abbrev pub Created : Registry → Text → Text → Registry → GroupResult → Type 0
Created s n j t (refused e) = IsSame s t j
Created s n j t (ok g) =
    (g.name ≡ n)
    × (lookup n s.groups ≡ none)
    × (lookup j t.groups ≡ (if text_eq n j then some g else lookup j s.groups))
    × (t.saved ≡ t.groups)

create_found-Created :
    (s : Registry) (n d t : Text) (saves : Bool) (o : Option Group) (j : Text)
    → lookup n s.groups ≡ o
    → Created s n j (create_found s n d t saves o).0 (create_found s n d t saves o).1
unfolding create_found
create_found-Created s n d t saves (some g) j h = (refl, refl)
create_found-Created s n d t true none j h = (refl, h, lookup-insert n j _ s.groups, refl)
create_found-Created s n d t false none j h = (taken_back s.groups n j _ h, refl)

create_named-Created :
    (s : Registry) (name d t : Text) (saves : Bool) (o : Option GroupError) (j : Text)
    → Created s
        (trim_space name)
        j
        (create_named s name d t saves o).0
        (create_named s name d t saves o).1
unfolding create_named
create_named-Created s name d t saves (some e) j = (refl, refl)
create_named-Created s name d t saves none j =
    create_found-Created s (trim_space name) d t saves (lookup (trim_space name) s.groups) j refl

-- Creating a group succeeds only on a free name, which the group then has, and changes no other name; a
-- creation that is refused, also by the backend, leaves the registry as it was at every name.
pub create_group_lem :
    (s : Registry) (name description stamp j : Text) (saves : Bool)
    → let done = create_group s name description stamp saves in
      Created s (trim_space name) j done.0 done.1
unfolding create_group
create_group_lem s name description stamp j saves =
    create_named-Created s name description stamp saves (name_error name) j

-- What renaming leaves at any name `j`: with a success under another name, the group stands at the new
-- name, which was free, and not at the old one, all of it is saved, and the cascade has the two names.
abbrev pub Renamed :
    Registry → Text → Text → Text → Registry → GroupResult → Option (Text × Text) → Type 0
Renamed s old n j t (refused e) c = IsSame s t j × (c ≡ none)
Renamed s old n j t (ok g) none = (n ≡ old) × (t ≡ s) × (lookup old s.groups ≡ some g)
Renamed s old n j t (ok g) (some c) =
    (c ≡ (old, n))
    × (g.name ≡ n)
    × (n ≢ old)
    × (lookup n s.groups ≡ none)
    × (lookup j t.groups
        ≡ (if text_eq n j then some g else if text_eq old j then none else lookup j s.groups))
    × (t.saved ≡ t.groups)

-- An update that the backend does not take is answered as an error, and yet stays in the registry in
-- memory, while what is saved has the old group.
pub update_unsaved :
    (s : Registry) (name : Text) (description : Option Text) (cfg : Option GroupConfig) (g : Group)
    → lookup (trim_space name) s.groups ≡ some g
    → let done = update_group s name description cfg false in
      (done.1 ≡ refused save_failed)
      × (done.0.saved ≡ s.saved)
      × (lookup (trim_space name) done.0.groups
          ≡ some (record g {
            description = new_description description g.description;
            config = new_config cfg g.config;
          }))
unfolding update_group update_found
update_unsaved s name description cfg g h = rw h (
  refl,
  refl,
  ground (
    arith,
    lookup-insert (trim_space name) (trim_space name)
        (record g {
          description = new_description description g.description;
          config = new_config cfg g.config;
        })
        s.groups,
    text_eq_refl (trim_space name),
  ),
)
