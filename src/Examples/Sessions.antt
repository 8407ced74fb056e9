-- ===== src/Examples/Sessions.antt =====
-- Runs of the session cache.
use chatgpt_prism2api.Base.{ℕ, ◌+◌, ◌⊎◌, ◌≡◌, refl, some, none, [], ◌∷◌, arith, ltb, if◌then◌else◌}
use chatgpt_prism2api.Base.Text.{Text, codes, text_eq, text_eq_iff}
use chatgpt_prism2api.Base.Int.{pos}
use chatgpt_prism2api.Base.Dict.{lookup, insert, erase, text_key}
use chatgpt_prism2api.GroupNames.{has_name}
use chatgpt_prism2api.Scheduler.Cache.{
  Entry, Cache, belongs, get, get_and_refresh, set_aliases, invalidate_auth, new_cache,
  merge_aliases, replace, remove_groups, remove_group, remove_aliases, write_all, groups_of,
}
use chatgpt_prism2api.Scheduler.Cache.Binding.{get-set_aliases, get_and_refresh_lem, IsWellKeyed}
use chatgpt_prism2api.Scheduler.Cache.Invalidate.{
  AreGroups, AreApart, invalidate_auth_lem, invalidate_leaves_binding,
}

-- Two sessions of account `A` known as one group, and one of `B`.
abbrev pair : Entry
pair = record { auth_id = codes "A"; expires_at = 20; aliases = codes "s" ∷ codes "t" ∷ [] }

abbrev single : Entry
single = record { auth_id = codes "B"; expires_at = 20; aliases = codes "u" ∷ [] }

abbrev cache : Cache
cache = record {
  entries = (codes "s", pair) ∷ (codes "t", pair) ∷ (codes "u", single) ∷ [];
  ttl = 10;
}

cache-IsWellKeyed : IsWellKeyed cache.entries
unfolding has_name text_eq
cache-IsWellKeyed = (refl, (refl, (refl, tt)))

cache-AreGroups : AreGroups (codes "A") cache.entries
unfolding text_eq
cache-AreGroups =
    ground (arith, text_eq_iff (codes "A") (codes "B"), text_eq_iff (codes "B") (codes "A"))

get-set_aliases_example :
    (get (set_aliases cache (codes "C") (codes "s" ∷ []) 12) (codes "s") 21).1
    ≡ (if ltb 21 (12 + 10) then some (codes "C") else none)
unfolding has_name text_eq
get-set_aliases_example =
    get-set_aliases cache (codes "C") (codes "s" ∷ []) 12 21 (codes "s") refl refl refl

get_and_refresh_lem_example :
    ((id : Text) (t : ℕ) → (get_and_refresh cache id t).1 ≡ (get cache id t).1)
    × ((get_and_refresh cache (codes "s") 15).1 ≡ some (codes "A"))
    × ((get (get_and_refresh cache (codes "s") 15).0 (codes "t") 24).1
        ≡ (if ltb 24 (15 + 10) then some (codes "A") else none))
unfolding lookup has_name text_eq
get_and_refresh_lem_example =
    get_and_refresh_lem cache (codes "s") (codes "t") 15 24 pair refl refl (omega arith) refl

invalidate_auth_lem_example : lookup (codes "t") (invalidate_auth cache (codes "A")).entries ≡ (
    if belongs (codes "A") (lookup (codes "t") cache.entries)
    then none
    else lookup (codes "t") cache.entries)
invalidate_auth_lem_example =
    invalidate_auth_lem cache (codes "A") (codes "t") refl cache-IsWellKeyed cache-AreGroups

-- What a test unfolds.
program : Unit {0}
unfolding new_cache set_aliases get invalidate_auth merge_aliases replace remove_groups remove_group
    remove_aliases write_all groups_of lookup insert erase text_eq
program = tt

-- Two sessions, bound to one account at one clock reading.
abbrev twins : Cache
twins = record {
  entries =
      (codes "s", record { auth_id = codes "A"; expires_at = 15; aliases = codes "s" ∷ [] })
      ∷ (codes "t", record { auth_id = codes "A"; expires_at = 15; aliases = codes "t" ∷ [] })
      ∷ [];
  ttl = 10;
}

twins-AreApart : AreApart (codes "A") (codes "s") (codes "t") 15 twins.entries
unfolding has_name text_eq
twins-AreApart = (
  (λ o e. refl, λ o n. ground (arith, n refl)),
  ((λ o e. refl, λ o n. ground (arith, n refl)), tt),
)

twins_test :
    set_aliases
      (set_aliases (record { entries = []; ttl = 10 }) (codes "A") (codes "s" ∷ []) 5)
      (codes "A")
      (codes "t" ∷ [])
      5
    ≡ twins
unfolding program
twins_test = refl

invalidate_leaves_binding_example :
    ((get (invalidate_auth twins (codes "A")) (codes "s") 5).1 ≡ some (codes "A"))
    ⊎ ((get (invalidate_auth twins (codes "A")) (codes "t") 5).1 ≡ some (codes "A"))
unfolding lookup text_eq
invalidate_leaves_binding_example =
    invalidate_leaves_binding twins (codes "A") (codes "s") (codes "t") 5
      (record { auth_id = codes "A"; expires_at = 15; aliases = codes "s" ∷ [] })
      (record { auth_id = codes "A"; expires_at = 15; aliases = codes "t" ∷ [] }) refl refl refl
      refl refl refl refl refl (omega arith) twins-AreApart

abbrev session : Text
session = codes "s"

abbrev account : Text
account = codes "acc"

bound_test :
    (get (set_aliases (new_cache (pos 10)) account (session ∷ []) 5) session 14).1 ≡ some account
unfolding program
bound_test = refl

expired_test : (get (set_aliases (new_cache (pos 10)) account (session ∷ []) 5) session 15).1 ≡ none
unfolding program
expired_test = refl

invalidated_test :
    (invalidate_auth (set_aliases (new_cache (pos 10)) account (session ∷ []) 5) account).entries
    ≡ []
unfolding program
invalidated_test = refl
