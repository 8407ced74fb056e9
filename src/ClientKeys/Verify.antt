-- ===== src/ClientKeys/Verify.antt =====
-- internal/clientkeys/store.go: verification, usage and the cascade of a group's name.
use chatgpt_prism2api.Base.{
  ℕ, ◌+◌, ◌≡◌, ◌<◌, ◌⊎◌, refl, Bool, true, false, not, ◌&&◌, Option, none, some, List, [], ◌∷◌,
  arith, if◌then◌else◌, leb, ◌==◌, Option-cases, inl, inr, if_both, sym,
}
use chatgpt_prism2api.Base.Text.{Text, text_eq, text_eq_iff, text_eq_refl}
use chatgpt_prism2api.Base.Dict.{lookup, insert, nat_eq, text_key, lookup-insert}
use chatgpt_prism2api.Base.Dict.Unique.{IsUnique}
use chatgpt_prism2api.ClientKeys.{Key, Store, save_locked, write_at, add64, usage_flush_threshold}
use chatgpt_prism2api.ClientKeys.Usage.{
  scan, touch, touch_hit, verify_and_touch, Used, add_usage, record_at, record_usage,
}
use chatgpt_prism2api.ClientKeys.Index.{Consistent, write_at-Consistent}

module _ {C : Type 0} where
  -- Whether what stands at an identifier is a key that is on and has the text.
  abbrev pub admits : Text → Option (Key C) → Bool
  admits presented none = false
  admits presented (some e) = not e.disabled && text_eq e.key presented

  -- The scan answers what it was given or an identifier whose entry admits the text.
  scan-some :
      (presented : Text) (hit : Option ℕ) (m : List (ℕ × Key C)) (id : ℕ)
      → IsUnique m
      → scan presented hit m ≡ some id
      → (hit ≡ some id) ⊎ (admits presented (lookup id m) ≡ true)
  unfolding scan lookup
  scan-some presented hit [] id u h = inl h
  scan-some presented hit ((j, e) ∷ m) id u h = ground (
    arith,
    scan-some presented (if not e.disabled && text_eq e.key presented then some j else hit) m id u.1
        h,
  )

  -- The scan answers none only where it was given none and no entry admits the text.
  scan-none :
      (presented : Text) (hit : Option ℕ) (m : List (ℕ × Key C)) (id : ℕ)
      → scan presented hit m ≡ none
      → (hit ≡ none) × (admits presented (lookup id m) ≡ false)
  unfolding scan lookup
  scan-none presented hit [] id h = (h, refl)
  scan-none presented hit ((j, e) ∷ m) id h = ground (
    arith,
    scan-none presented (if not e.disabled && text_eq e.key presented then some j else hit) m id h,
  )

  -- What the index by text finds.
  abbrev at_index : Store C → Option ℕ → Option (Key C)
  at_index s none = none
  at_index s (some id) = lookup id s.entries

  abbrev pub indexed : Store C → Text → Option (Key C)
  indexed s k = at_index s (lookup k s.by_key)

  abbrev pub touched : Text → Key C → Key C
  touched stamp e = record e { total_calls = add64 e.total_calls 1; last_used_at = stamp }

  -- A key that is on is answered with one more call and the time stamp.
  abbrev pub answer : Text → Option (Key C) → Option (Key C)
  answer stamp none = none
  answer stamp (some e) = if e.disabled then none else some (touched stamp e)

  entry-Consistent :
      (s : Store C) (id dirty : ℕ) (saved : List (ℕ × Key C)) (e f : Key C)
      → Consistent s
      → lookup id s.entries ≡ some e
      → f.id ≡ e.id
      → f.key ≡ e.key
      → Consistent
          (record s { entries = insert id f s.entries; usage_dirty = dirty; saved = saved })
  unfolding write_at save_locked
  entry-Consistent s id dirty saved e f v at i k =
      let w = write_at-Consistent s id e f v at i k in
      record {
        positive = w.positive;
        unique = w.unique;
        forward = w.forward;
        backward = w.backward;
      }

  answer-none :
      (s : Store C) (presented stamp : Text) (found : Option ℕ)
      → Consistent s
      → lookup presented s.by_key ≡ found
      → scan presented none s.entries ≡ none
      → answer stamp (at_index s found) ≡ none
  answer-none s presented stamp none v f h = refl
  answer-none s presented stamp (some id) v f h = elim (Option-cases (lookup id s.entries)) [
    | inl g ↦ rw g refl
    | inr (e, g) ↦ ground (
      arith,
      v.backward presented id f,
      (scan-none presented none s.entries id h).1,
      g,
      text_eq_refl presented,
    )
  ]

  touch_lem :
      (s : Store C) (presented stamp : Text) (id : ℕ) (o : Option (Key C))
      → Consistent s
      → lookup id s.entries ≡ o
      → admits presented o ≡ true
      → Consistent (touch s stamp id o).0
        × ((touch s stamp id o).1 ≡ answer stamp (indexed s presented))
  unfolding touch
  touch_lem s presented stamp id none v at h = ground (arith, h)
  touch_lem s presented stamp id (some e) v at h =
      let same : e.key ≡ presented = ground (arith, text_eq_iff e.key presented, h) in
      let found : lookup presented s.by_key ≡ some id = ground (arith, v.forward id e at, same) in
      (
        entry-Consistent s id s.usage_dirty s.saved e (touched stamp e) v at refl refl,
        rw (found, at) (ground (arith, h)),
      )

  touch_hit_lem :
      (s : Store C) (presented stamp : Text) (hit : Option ℕ)
      → Consistent s
      → scan presented none s.entries ≡ hit
      → Consistent (touch_hit s stamp hit).0
        × ((touch_hit s stamp hit).1 ≡ answer stamp (indexed s presented))
  unfolding touch_hit
  touch_hit_lem s presented stamp none v h =
      (v, sym (answer-none s presented stamp (lookup presented s.by_key) v refl h))
  touch_hit_lem s presented stamp (some id) v h =
      touch_lem s presented stamp id (lookup id s.entries) v refl
        (ground (arith, scan-some presented none s.entries id v.unique h))

  -- On a consistent store the scan over all keys answers what the index by text would: the key with
  -- the text if it is on, with one more call and the time stamp. The store stays consistent.
  pub verify_and_touch_lem :
      (s : Store C) (presented stamp : Text)
      → Consistent s
      → Consistent (verify_and_touch s presented stamp).0
        × ((verify_and_touch s presented stamp).1 ≡ answer stamp (indexed s presented))
  unfolding verify_and_touch
  verify_and_touch_lem s presented stamp v =
      touch_hit_lem s presented stamp (scan presented none s.entries) v refl

  -- Recording a request on a key keeps the store consistent, adds the usage to that key alone, and
  -- leaves fewer than a hundred records unsaved: at the hundredth all entries are saved.
  pub record_usage_lem :
      (s : Store C) (u : Used C) (stamp : Text) (id j : ℕ) (e : Key C)
      → Consistent s
      → lookup id s.entries ≡ some e
      → s.usage_dirty < usage_flush_threshold
      → let done = record_usage s u stamp id in
        Consistent done
        × (lookup j done.entries
            ≡ (if id == j then some (add_usage u stamp e) else lookup j s.entries))
        × (done.usage_dirty < usage_flush_threshold)
        × (done.usage_dirty ≡ 0 → done.saved ≡ done.entries)
  unfolding record_usage record_at save_locked add_usage
  record_usage_lem s u stamp id j e v at few = rw at (
    if_both Consistent (leb usage_flush_threshold (s.usage_dirty + 1))
        (entry-Consistent s id 0 (insert id (add_usage u stamp e) s.entries) e (add_usage u stamp e)
          v at refl refl)
        (entry-Consistent s id (s.usage_dirty + 1) s.saved e (add_usage u stamp e) v at refl refl),
    ground (arith, lookup-insert id j (add_usage u stamp e) s.entries),
    ground arith,
    ground arith,
  )
