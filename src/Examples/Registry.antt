-- ===== src/Examples/Registry.antt =====
-- Runs of the registry of groups.
use chatgpt_prism2api.Base.{◌≡◌, refl, false, none, some, [], ◌∷◌}
use chatgpt_prism2api.Base.Int.{pos}
use chatgpt_prism2api.Base.Text.{codes, text_eq, trim_space}
use chatgpt_prism2api.Base.Dict.{lookup, text_key}
use chatgpt_prism2api.Groups.{
  Group, GroupConfig, Registry, refused, save_failed, update_group, new_description, new_config,
}
use chatgpt_prism2api.Groups.Rollback.{update_unsaved}

abbrev team : Group
team = record { name = codes "team"; description = []; created_at = codes "now"; config = none }

abbrev one_group : Registry
one_group = record { groups = (codes "team", team) ∷ []; saved = (codes "team", team) ∷ [] }

abbrev cap : GroupConfig
cap = record { rpm = pos 5; daily_max = pos 0 }

update_unsaved_example :
    ((update_group one_group (codes "team") none (some cap) false).1 ≡ refused save_failed)
    × ((update_group one_group (codes "team") none (some cap) false).0.saved ≡ one_group.saved)
    × (lookup
          (trim_space (codes "team"))
          (update_group one_group (codes "team") none (some cap) false).0.groups
        ≡ some (record team {
          description = new_description none team.description;
          config = new_config (some cap) team.config;
        }))
unfolding lookup trim_space text_eq
update_unsaved_example = update_unsaved one_group (codes "team") none (some cap) team refl
