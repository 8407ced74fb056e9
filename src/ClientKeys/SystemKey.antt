-- ===== src/ClientKeys/SystemKey.antt =====
-- internal/clientkeys/store.go: `EnsureSystemKey`.
use chatgpt_prism2api.Base.{
  ℕ, ◌+◌, ◌^◌, ◌≡◌, ◌<◌, refl, Bool, true, false, Option, none, some, [], arith, ◌==◌, Option-cases,
  Bool-cases, inl, inr, if_both, subst,
}
use chatgpt_prism2api.Base.Text.{Text, text_eq_refl, is_empty}
use chatgpt_prism2api.Base.Dict.{lookup, insert, erase, nat_eq, text_key, lookup-insert}
use chatgpt_prism2api.ClientKeys.{
  Key, Store, save_locked, put, write_at, ensure_at, taken, ensure_system_key, mark_system,
  move_to_zero, add64, fresh_key,
}
use chatgpt_prism2api.ClientKeys.Usage.{system_or_false}
use chatgpt_prism2api.ClientKeys.Index.{
  Consistent, put-Consistent, write_at-Consistent, moved-Consistent,
}
use chatgpt_prism2api.ClientKeys.Methods.{next_is_free, bumped-Consistent}

module _ {C : Type 0} where
  abbrev marked_at : Store C → Option ℕ → Bool
  marked_at s none = false
  marked_at s (some id) = system_or_false (lookup id s.entries)

  -- Whether a text leads to an entry that is marked as the system's.
  abbrev pub marked : Store C → Text → Bool
  marked s k = marked_at s (lookup k s.by_key)

  -- The method answers a consistent store in which the text is a system key.
  abbrev pub IsEnsured : Text → Option (Store C) → Type 0
  IsEnsured k none = ⊥
  IsEnsured k (some s) = Consistent s × (marked s k ≡ true)

  mark_system-IsEnsured :
      (s : Store C) (k : Text) (id : ℕ) (o : Option (Key C))
      → Consistent s
      → lookup k s.by_key ≡ some id
      → lookup id s.entries ≡ o
      → IsEnsured k (some (mark_system s id o))
  unfolding mark_system write_at save_locked
  mark_system-IsEnsured s k id none v h at = ground (arith, v.backward k id h)
  mark_system-IsEnsured s k id (some e) v h at = (
    if_both Consistent e.is_system v
        (write_at-Consistent s id e (record e { is_system = true }) v at refl refl),
    ground (arith, lookup-insert id id (record e { is_system = true }) s.entries),
  )

  put-IsEnsured :
      (s : Store C) (id : ℕ) (e : Key C)
      → Consistent s
      → e.id ≡ id
      → e.is_system ≡ true
      → id < s.next_id
      → lookup e.key s.by_key ≡ none
      → lookup id s.entries ≡ none
      → IsEnsured e.key (some (put s id e))
  unfolding put save_locked
  put-IsEnsured s id e v same system below new free = (
    put-Consistent s id e v same below new free,
    ground (
      arith,
      lookup-insert id id e s.entries,
      lookup-insert e.key e.key id s.by_key,
      text_eq_refl e.key,
    ),
  )

  move_to_zero-IsEnsured :
      (s : Store C) (k : Text) (id : ℕ) (o : Option (Key C))
      → Consistent s
      → lookup k s.by_key ≡ some id
      → lookup id s.entries ≡ o
      → lookup 0 s.entries ≡ none
      → IsEnsured k (move_to_zero s k id o)
  unfolding move_to_zero save_locked
  move_to_zero-IsEnsured s k id none v h at free = ground (arith, v.backward k id h)
  move_to_zero-IsEnsured s k id (some e) v h at free =
      let same : e.key ≡ k = ground (arith, v.backward k id h) in
      (
        subst
            (λ t. Consistent (
              save_locked (record s {
                entries = insert 0 (record e { id = 0; is_system = true }) (erase id s.entries);
                by_key = insert t 0 s.by_key;
              })))
            same
            (moved-Consistent s id 0 e (record e { id = 0; is_system = true }) v at free v.positive
              refl refl),
        ground (
          arith,
          lookup-insert 0 0 (record e { id = 0; is_system = true }) (erase id s.entries),
          lookup-insert k k 0 s.by_key,
          text_eq_refl k,
        ),
      )

  taken-none : (o : Option (Key C)) → taken o ≡ false → o ≡ none
  taken-none none h = refl
  taken-none (some e) h = ground arith

  ensure_at_lem :
      (s : Store C) (found : Option ℕ) (c : C) (name description plaintext stamp : Text)
      → lookup plaintext s.by_key ≡ found
      → Consistent s
      → s.next_id + 1 < 2 ^ 64
      → IsEnsured plaintext (ensure_at s found c name description plaintext stamp)
  unfolding ensure_at
  ensure_at_lem s none c name description plaintext stamp h v small =
      elim (Option-cases (lookup 0 s.entries)) [
        | inl free ↦ rw free (
            put-IsEnsured s 0 (fresh_key c 0 plaintext name description [] true stamp) v refl refl
              v.positive h free)
        | inr (e, at) ↦ rw at (
            put-IsEnsured (record s { next_id = add64 s.next_id 1 }) s.next_id
              (fresh_key c s.next_id plaintext name description [] true stamp)
              (bumped-Consistent s v small) refl refl (omega arith) h (next_is_free s v))
      ]
  ensure_at_lem s (some id) c name description plaintext stamp h v small =
      elim (Bool-cases (id == 0)) [
        | inl zero ↦
            let at_zero : lookup plaintext s.by_key ≡ some 0 = ground (arith, h) in
            rw zero (mark_system-IsEnsured s plaintext 0 (lookup 0 s.entries) v at_zero refl)
        | inr other ↦ rw other (elim (Option-cases (lookup 0 s.entries)) [
          | inl free ↦
              rw free (move_to_zero-IsEnsured s plaintext id (lookup id s.entries) v h refl free)
          | inr (e, at) ↦
              rw at (mark_system-IsEnsured s plaintext id (lookup id s.entries) v h refl)
        ])
      ]

  -- On a consistent store with an identifier left, the method meets no missing entry: it answers a
  -- consistent store in which the text, if it is not empty, leads to a system key.
  pub ensure_system_key_lem :
      (s : Store C) (c : C) (name description plaintext stamp : Text)
      → Consistent s
      → s.next_id + 1 < 2 ^ 64
      → is_empty plaintext ≡ false
      → IsEnsured plaintext (ensure_system_key s c name description plaintext stamp)
  unfolding ensure_system_key
  ensure_system_key_lem s c name description plaintext stamp v small given =
      rw given (
        ensure_at_lem s (lookup plaintext s.by_key) c name description plaintext stamp refl v small)
