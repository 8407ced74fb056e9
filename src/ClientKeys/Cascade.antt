-- ===== src/ClientKeys/Cascade.antt =====
-- internal/clientkeys/store.go: the cascade of a group's new name, and of its removal, to the keys.
use chatgpt_prism2api.Base.{
  ℕ, ◌≡◌, refl, Bool, Option, none, some, List, [], ◌∷◌, arith, if◌then◌else◌, ltb, if_both, length,
  select, ap, ◌∙◌, sym,
}
use chatgpt_prism2api.Base.Text.{Text, text_eq}
use chatgpt_prism2api.Base.Dict.{lookup, nat_eq, text_key}
use chatgpt_prism2api.Base.Dict.Unique.{IsUnique}
use chatgpt_prism2api.ClientKeys.{Key, Store, save_locked}
use chatgpt_prism2api.ClientKeys.Usage.{regroup, rename_key_group}
use chatgpt_prism2api.ClientKeys.Index.{text_of, Consistent}

module _ {C : Type 0} where
  -- What the cascade makes of one key.
  abbrev pub regrouped : Text → Text → Option (Key C) → Option (Key C)
  regrouped old new none = none
  regrouped old new (some e) = some (if text_eq e.group old then record e { group = new } else e)

  abbrev pub is_in : Text → ℕ × Key C → Bool
  is_in old (id, e) = text_eq e.group old

  lookup-regroup :
      (old new : Text) (m : List (ℕ × Key C)) (j : ℕ)
      → lookup j (regroup old new m).0 ≡ regrouped old new (lookup j m)
  unfolding lookup regroup
  lookup-regroup old new [] j = refl
  lookup-regroup old new ((id, e) ∷ m) j = ground (arith, lookup-regroup old new m j)

  regroup-IsUnique :
      (old new : Text) (m : List (ℕ × Key C)) → IsUnique m → IsUnique (regroup old new m).0
  unfolding lookup regroup
  regroup-IsUnique old new [] u = tt
  regroup-IsUnique old new ((id, e) ∷ m) u =
      ground (arith, lookup-regroup old new m id, regroup-IsUnique old new m u.1)

  count-regroup :
      (old new : Text) (m : List (ℕ × Key C))
      → (regroup old new m).1 ≡ length (select (is_in old) m)
  unfolding regroup select
  count-regroup old new [] = refl
  count-regroup old new ((id, e) ∷ m) = ground (arith, count-regroup old new m)

  text-regrouped : (old new : Text) (o : Option (Key C)) → text_of (regrouped old new o) ≡ text_of o
  text-regrouped old new none = refl
  text-regrouped old new (some e) = ground arith

  -- The entry before the cascade has the same identifier and text.
  regrouped-some :
      (old new : Text) (o : Option (Key C)) (f : Key C)
      → regrouped old new o ≡ some f
      → (e : Key C) × (o ≡ some e) × (f.id ≡ e.id) × (f.key ≡ e.key)
  regrouped-some old new none f h = ground arith
  regrouped-some old new (some e) f h = (e, refl, ground arith, ground arith)

  regroup-Consistent :
      (s : Store C) (old new : Text)
      → Consistent s
      → Consistent (record s { entries = (regroup old new s.entries).0 })
  regroup-Consistent s old new v = record {
    positive = v.positive;
    unique = regroup-IsUnique old new s.entries v.unique;
    forward = λ j f h.
        let (e, at, i, k) =
          regrouped-some old new (lookup j s.entries) f
            (sym (lookup-regroup old new s.entries j) ∙ h) in
        rw (i, k) (v.forward j e at);
    backward = λ k j h.
        ap text_of (lookup-regroup old new s.entries j)
        ∙ text-regrouped old new (lookup j s.entries)
        ∙ v.backward k j h;
  }

  -- Renaming a group in the keys changes the group of exactly the keys that are in it, answers how many
  -- these are, and keeps the store consistent.
  pub rename_key_group_lem :
      (s : Store C) (old new : Text) (j : ℕ)
      → Consistent s
      → let done = rename_key_group s old new in
        Consistent done.0
        × (lookup j done.0.entries ≡ regrouped old new (lookup j s.entries))
        × (done.1 ≡ length (select (is_in old) s.entries))
  unfolding rename_key_group save_locked
  rename_key_group_lem s old new j v =
      let w = regroup-Consistent s old new v in
      (
        if_both Consistent (ltb 0 (regroup old new s.entries).1)
            (record {
              positive = w.positive;
              unique = w.unique;
              forward = w.forward;
              backward = w.backward;
            })
            w,
        ground (arith, lookup-regroup old new s.entries j),
        count-regroup old new s.entries,
      )
