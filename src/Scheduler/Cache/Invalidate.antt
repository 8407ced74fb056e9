-- ===== src/Scheduler/Cache/Invalidate.antt =====
-- Invalidating an account takes away its bindings and no other, where entries of the account with equal
-- expiry are of one group; two groups of equal expiry are taken for one, and a binding stays.
use chatgpt_prism2api.Base.{
  ◌||◌, ◌⊎◌, Bool-cases, ℕ, ◌<◌, ◌≡◌, refl, Bool, true, false, ◌&&◌, none, some, List, [], ◌∷◌,
  arith, if◌then◌else◌, All, exists_in, All-mono, Option-cases, inl, inr, ◌≢◌, subst, sym,
}
use chatgpt_prism2api.Base.Text.{Text, text_eq_iff, is_empty}
use chatgpt_prism2api.Base.Dict.{lookup, text_key}
use chatgpt_prism2api.GroupNames.{has_name}
use chatgpt_prism2api.Scheduler.Cache.{
  Entry, Entries, Cache, belongs, has_time, remove_group, remove_groups, groups_of, invalidate_auth,
  get,
}
use chatgpt_prism2api.Scheduler.Cache.Laws.{lookup-remove_group, All-lookup}
use chatgpt_prism2api.Scheduler.Cache.Binding.{IsWellKeyed}

-- Whether some group has the session among its aliases.
abbrev covers : Text → List Entry → Bool
covers k gs = exists_in (λ g. has_name k g.aliases) gs

lookup-remove_groups :
    (auth k : Text) (gs : List Entry) (m : Entries)
    → All (λ g. g.auth_id ≡ auth) gs
    → lookup k (remove_groups m gs)
      ≡ (if covers k gs && belongs auth (lookup k m) then none else lookup k m)
unfolding remove_groups exists_in
lookup-remove_groups auth k [] m a = refl
lookup-remove_groups auth k (g ∷ gs) m a =
    ground (arith, lookup-remove_group k m g, lookup-remove_groups auth k gs (remove_group m g) a.1)

groups_of-owner :
    (auth : Text) (seen : List ℕ) (m : Entries)
    → All (λ g. g.auth_id ≡ auth) (groups_of auth seen m)
unfolding groups_of
groups_of-owner auth seen [] = tt
groups_of-owner auth seen ((k, e) ∷ m) = ground (
  arith,
  text_eq_iff e.auth_id auth,
  groups_of-owner auth seen m,
  groups_of-owner auth (e.expires_at ∷ seen) m,
)

-- The groups found cover a session whose group has this name wherever its expiry stands.
groups_of-covers :
    (auth k : Text) (e : Entry) (seen : List ℕ) (m : Entries)
    → e.auth_id ≡ auth
    → lookup k m ≡ some e
    → has_time e.expires_at seen ≡ false
    → All
        (λ q. q.1.auth_id ≡ auth → q.1.expires_at ≡ e.expires_at → has_name k q.1.aliases ≡ true)
        m
    → covers k (groups_of auth seen m) ≡ true
unfolding groups_of lookup exists_in
groups_of-covers auth k e seen [] o h t a = cc
groups_of-covers auth k e seen ((j, f) ∷ m) o h t a = ground (
  arith,
  text_eq_iff f.auth_id auth,
  text_eq_iff j k,
  groups_of-covers auth k e seen m o,
  groups_of-covers auth k e (f.expires_at ∷ seen) m o,
)

-- Entries of the account with equal expiry have the same aliases.
abbrev pub AreGroups : Text → Entries → Type 0
AreGroups auth m =
    All
      (λ p.
        All
          (λ q.
            p.1.auth_id ≡ auth
            → q.1.auth_id ≡ auth
            → p.1.expires_at ≡ q.1.expires_at
            → p.1.aliases ≡ q.1.aliases)
          m)
      m

covered :
    (auth k : Text) (m : Entries) (e : Entry)
    → IsWellKeyed m
    → AreGroups auth m
    → lookup k m ≡ some e
    → e.auth_id ≡ auth
    → covers k (groups_of auth [] m) ≡ true
covered auth k m e v agree h o =
    let named = All-lookup (λ p. has_name p.0 p.1.aliases ≡ true) m k e v h in
    groups_of-covers auth k e [] m o h refl (
      All-mono _ _ m
        (λ q same o' t. subst (λ aliases. has_name k aliases ≡ true) (same o o' (sym t)) named)
        (All-lookup _ m k e agree h))

-- Where entries of one account with equal expiry are of one group, invalidating an account unbinds
-- every session bound to it and leaves every other session as it is.
pub invalidate_auth_lem :
    (c : Cache) (auth k : Text)
    → is_empty auth ≡ false
    → IsWellKeyed c.entries
    → AreGroups auth c.entries
    → lookup k (invalidate_auth c auth).entries
      ≡ (if belongs auth (lookup k c.entries) then none else lookup k c.entries)
unfolding invalidate_auth
invalidate_auth_lem c auth k given v agree = elim (Option-cases (lookup k c.entries)) [
  | inl e ↦ ground (
    arith,
    lookup-remove_groups auth k (groups_of auth [] c.entries) c.entries
        (groups_of-owner auth [] c.entries),
  )
  | inr (entry, e) ↦ ground (
    arith,
    text_eq_iff entry.auth_id auth,
    covered auth k c.entries entry v agree e,
    lookup-remove_groups auth k (groups_of auth [] c.entries) c.entries
        (groups_of-owner auth [] c.entries),
  )
]

-- The entries of the account that expire at the time name one of two sessions at most, and its other entries
-- none of them.
abbrev pub AreApart : Text → Text → Text → ℕ → Entries → Type 0
AreApart auth s t until m =
    All
      (λ p.
        (p.1.auth_id ≡ auth
          → p.1.expires_at ≡ until
          → has_name s p.1.aliases && has_name t p.1.aliases ≡ false)
        × (p.1.auth_id ≡ auth
            → p.1.expires_at ≢ until
            → has_name s p.1.aliases || has_name t p.1.aliases ≡ false))
      m

-- No group is found for the two sessions once their expiry has been seen.
none_covered :
    (auth s t : Text) (until : ℕ) (seen : List ℕ) (m : Entries)
    → has_time until seen ≡ true
    → AreApart auth s t until m
    → covers s (groups_of auth seen m) || covers t (groups_of auth seen m) ≡ false
unfolding groups_of exists_in
none_covered auth s t until seen [] h a = refl
none_covered auth s t until seen ((k, e) ∷ m) h (a, rest) = ground (
  arith,
  text_eq_iff e.auth_id auth,
  a.1,
  none_covered auth s t until seen m h rest,
  none_covered auth s t until (e.expires_at ∷ seen) m (ground (arith, h)) rest,
)

-- One group is found at most for the expiry of the two sessions, and it has not both.
not_both_covered :
    (auth s t : Text) (until : ℕ) (seen : List ℕ) (m : Entries)
    → AreApart auth s t until m
    → covers s (groups_of auth seen m) && covers t (groups_of auth seen m) ≡ false
unfolding groups_of exists_in
not_both_covered auth s t until seen [] a = refl
not_both_covered auth s t until seen ((k, e) ∷ m) (a, rest) = ground (
  arith,
  text_eq_iff e.auth_id auth,
  a,
  not_both_covered auth s t until seen m rest,
  not_both_covered auth s t until (e.expires_at ∷ seen) m rest,
  none_covered auth s t until (e.expires_at ∷ seen) m,
)

left_bound :
    (c : Cache) (auth s : Text) (now : ℕ) (entry : Entry)
    → is_empty auth ≡ false
    → is_empty s ≡ false
    → lookup s c.entries ≡ some entry
    → entry.auth_id ≡ auth
    → now < entry.expires_at
    → covers s (groups_of auth [] c.entries) ≡ false
    → (get (invalidate_auth c auth) s now).1 ≡ some auth
unfolding get invalidate_auth
left_bound c auth s now entry given named at o live free = ground (
  arith,
  lookup-remove_groups auth s (groups_of auth [] c.entries) c.entries
      (groups_of-owner auth [] c.entries),
)

-- Two live sessions of one account with the same expiry, which no entry of that expiry names both and no
-- entry of the account with another expiry names: after the account is invalidated one of the two
-- sessions at least is still answered that account.
pub invalidate_leaves_binding :
    (c : Cache) (auth s t : Text) (now : ℕ) (e f : Entry)
    → is_empty auth ≡ false
    → is_empty s ≡ false
    → is_empty t ≡ false
    → lookup s c.entries ≡ some e
    → lookup t c.entries ≡ some f
    → e.auth_id ≡ auth
    → f.auth_id ≡ auth
    → e.expires_at ≡ f.expires_at
    → now < e.expires_at
    → AreApart auth s t e.expires_at c.entries
    → ((get (invalidate_auth c auth) s now).1 ≡ some auth)
      ⊎ ((get (invalidate_auth c auth) t now).1 ≡ some auth)
invalidate_leaves_binding c auth s t now e f given es et at at' o o' same live apart =
    elim (Bool-cases (covers s (groups_of auth [] c.entries))) [
      | inl h ↦ inr (
          left_bound c auth t now f given et at' o' (omega (arith, live, same))
            (ground (arith, h, not_both_covered auth s t e.expires_at [] c.entries apart)))
      | inr h ↦ inl (left_bound c auth s now e given es at o live h)
    ]
