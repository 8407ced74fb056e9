-- ===== src/ClientKeys/Methods.antt =====
-- internal/clientkeys/store.go: what each method does to a consistent store.
use chatgpt_prism2api.Base.{
  ℕ, ◌+◌, ◌^◌, ◌≡◌, ◌<◌, refl, Bool, false, not, ◌&&◌, Option, none, some, arith, if◌then◌else◌,
  ◌==◌, Option-cases, inl, inr, if_both,
}
use chatgpt_prism2api.Base.Text.{Text, text_eq_iff, text_eq_refl, trim_space}
use chatgpt_prism2api.Base.Dict.{lookup, erase, nat_eq, text_key, lookup-insert, lookup-erase}
use chatgpt_prism2api.ClientKeys.{
  Key, Store, save_locked, put, create_at, create_with_key, delete_at, delete, change_at,
  set_disabled, update_meta, reset_stats, add64, fresh_key,
}
use chatgpt_prism2api.ClientKeys.Usage.{rotate, rotate_at}
use chatgpt_prism2api.ClientKeys.Index.{
  Consistent, put-Consistent, write_at-Consistent, erased-Consistent, rotated-Consistent,
}

module _ {C : Type 0} where
  -- The next identifier is free.
  pub next_is_free : (s : Store C) → Consistent s → lookup s.next_id s.entries ≡ none
  next_is_free s v = elim (Option-cases (lookup s.next_id s.entries)) [
    | inl h ↦ h
    | inr (e, h) ↦ ground (arith, v.forward s.next_id e h)
  ]

  -- A larger next identifier keeps a store consistent.
  pub bumped-Consistent :
      (s : Store C)
      → Consistent s
      → s.next_id + 1 < 2 ^ 64
      → Consistent (record s { next_id = add64 s.next_id 1 })
  bumped-Consistent s v small = record {
    positive = omega (arith, v.positive);
    unique = v.unique;
    forward = λ j f h. ground (arith, v.forward j f h);
    backward = v.backward;
  }

  -- What a store holds under a text: none, or an entry with that text that both indexes lead to.
  abbrev pub Holds : Store C → Text → Option (Key C) → Type 0
  Holds s k none = ⊥
  Holds s k (some e) =
      (e.key ≡ k) × (lookup e.id s.entries ≡ some e) × (lookup k s.by_key ≡ some e.id)

  entry_of :
      (s : Store C) (k : Text) (id : ℕ) (o : Option (Key C))
      → Consistent s
      → lookup k s.by_key ≡ some id
      → lookup id s.entries ≡ o
      → Holds s k o
  entry_of s k id none v h at = ground (arith, v.backward k id h)
  entry_of s k id (some e) v h at = ground (arith, v.backward k id h, v.forward id e at)

  put_held : (s : Store C) (id : ℕ) (e : Key C) → e.id ≡ id → Holds (put s id e) e.key (some e)
  unfolding put save_locked
  put_held s id e same = ground (
    arith,
    lookup-insert id e.id e s.entries,
    lookup-insert e.key e.key id s.by_key,
    text_eq_refl e.key,
  )

  create_at_lem :
      (s : Store C) (found : Option ℕ) (c : C) (name description group plaintext stamp : Text)
      → lookup plaintext s.by_key ≡ found
      → Consistent s
      → s.next_id + 1 < 2 ^ 64
      → Consistent (create_at s found c name description group plaintext stamp).0
        × Holds
            (create_at s found c name description group plaintext stamp).0
            plaintext
            (create_at s found c name description group plaintext stamp).1
  unfolding create_at
  create_at_lem s none c name description group plaintext stamp h v small = (
    put-Consistent (record s { next_id = add64 s.next_id 1 }) s.next_id
        (fresh_key c s.next_id plaintext name description (trim_space group) false stamp)
        (bumped-Consistent s v small) refl (omega arith) h (next_is_free s v),
    put_held (record s { next_id = add64 s.next_id 1 }) s.next_id
        (fresh_key c s.next_id plaintext name description (trim_space group) false stamp) refl,
  )
  create_at_lem s (some id) c name description group plaintext stamp h v small =
      (v, entry_of s plaintext id (lookup id s.entries) v h refl)

  -- On a consistent store with an identifier left, creating a key under a text keeps the store
  -- consistent and answers an entry with that text, which both indexes then lead to.
  pub create_with_key_lem :
      (s : Store C) (c : C) (name description group plaintext stamp : Text)
      → Consistent s
      → s.next_id + 1 < 2 ^ 64
      → let done = create_with_key s c name description group plaintext stamp in
        Consistent done.0 × Holds done.0 plaintext done.1
  unfolding create_with_key
  create_with_key_lem s c name description group plaintext stamp v small =
      create_at_lem s (lookup plaintext s.by_key) c name description group plaintext stamp refl v
        small

  -- Deleting the entry at an identifier is refused exactly for a system key. Otherwise neither index
  -- knows it any more, every other entry is as before, and the store stays consistent.
  pub delete_lem :
      (s : Store C) (id j : ℕ) (e : Key C)
      → Consistent s
      → lookup id s.entries ≡ some e
      → let done = delete s id in
        Consistent done.0
        × (done.1 ≡ not e.is_system)
        × (lookup e.key done.0.by_key ≡ (if e.is_system then some id else none))
        × (lookup j done.0.entries
            ≡ (if not e.is_system && (id == j) then none else lookup j s.entries))
  unfolding delete delete_at save_locked
  delete_lem s id j e v at = rw at (
    if_both (λ (r : Store C × Bool). Consistent r.0) e.is_system v (erased-Consistent s id e v at),
    ground arith,
    ground (arith, lookup-erase e.key e.key s.by_key, text_eq_refl e.key, v.forward id e at),
    ground (arith, lookup-erase id j s.entries),
  )

  -- Rotating a key to a fresh text: the old text leads nowhere, the new one to the same entry, of which
  -- nothing but the text has changed, and the store stays consistent.
  pub rotate_lem :
      (s : Store C) (id : ℕ) (e : Key C) (fresh : Text)
      → Consistent s
      → lookup id s.entries ≡ some e
      → lookup fresh s.by_key ≡ none
      → let done = rotate s id fresh in
        Consistent done.0
        × (done.1 ≡ some (record e { key = fresh }))
        × Holds done.0 fresh done.1
        × (lookup e.key done.0.by_key ≡ none)
  unfolding rotate rotate_at save_locked
  rotate_lem s id e fresh v at new = rw at (
    rotated-Consistent s id e (record e { key = fresh }) v at refl new,
    refl,
    ground (
      arith,
      v.forward id e at,
      lookup-insert id e.id (record e { key = fresh }) s.entries,
      lookup-insert fresh fresh id (erase e.key s.by_key),
      text_eq_refl fresh,
    ),
    ground (
      arith,
      v.forward id e at,
      text_eq_refl e.key,
      text_eq_iff fresh e.key,
      lookup-insert fresh e.key id (erase e.key s.by_key),
      lookup-erase e.key e.key s.by_key,
    ),
  )

  change_at-Consistent :
      (f : Key C → Key C) (s : Store C) (id : ℕ) (o : Option (Key C))
      → ((e : Key C) → (f e).id ≡ e.id)
      → ((e : Key C) → (f e).key ≡ e.key)
      → Consistent s
      → lookup id s.entries ≡ o
      → Consistent (change_at f s id o).0
  unfolding change_at
  change_at-Consistent f s id none i k v at = v
  change_at-Consistent f s id (some e) i k v at = write_at-Consistent s id e (f e) v at (i e) (k e)

  -- Switching a key, changing its description and resetting its statistics keep a store consistent.
  pub changes-Consistent :
      (s : Store C) (c : C) (id : ℕ) (disabled : Bool) (name description group : Option Text)
      → Consistent s
      → Consistent (set_disabled s id disabled).0
        × Consistent (update_meta s id name description group).0
        × Consistent (reset_stats s c id).0
  unfolding set_disabled update_meta reset_stats
  changes-Consistent s c id disabled name description group v = (
    change_at-Consistent _ s id (lookup id s.entries) (λ e. refl) (λ e. refl) v refl,
    change_at-Consistent _ s id (lookup id s.entries) (λ e. refl) (λ e. refl) v refl,
    change_at-Consistent _ s id (lookup id s.entries) (λ e. refl) (λ e. refl) v refl,
  )
