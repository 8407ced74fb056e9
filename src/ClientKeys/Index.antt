-- ===== src/ClientKeys/Index.antt =====
-- internal/clientkeys/store.go: the two indexes name each other, whatever the methods do.
use chatgpt_prism2api.Base.{ℕ, ◌≡◌, ◌<◌, Option, none, some, arith}
use chatgpt_prism2api.Base.Text.{Text, text_eq_iff}
use chatgpt_prism2api.Base.Dict.{
  lookup, insert, erase, nat_eq, text_key, lookup-insert, lookup-erase,
}
use chatgpt_prism2api.Base.Dict.Unique.{IsUnique, insert-IsUnique, erase-IsUnique}
use chatgpt_prism2api.ClientKeys.{Key, Store, save_locked, put, write_at}

abbrev pub text_of : {C : Type 0} → Option (Key C) → Option Text
text_of none = none
text_of (some e) = some e.key

-- Each entry stands at its own identifier, below the next one, and its text leads to it; each text
-- leads to an entry that has it.
pub record Consistent {C : Type 0} (s : Store C) : Type 0 where
  pub positive : 0 < s.next_id
  pub unique : IsUnique s.entries
  pub forward :
      (id : ℕ) (e : Key C)
      → lookup id s.entries ≡ some e
      → (e.id ≡ id) × (lookup e.key s.by_key ≡ some id) × (id < s.next_id)
  pub backward :
      (k : Text) (id : ℕ) → lookup k s.by_key ≡ some id → text_of (lookup id s.entries) ≡ some k

module _ {C : Type 0} where
  -- A new entry under a new text and a new identifier.
  pub put-Consistent :
      (s : Store C) (id : ℕ) (e : Key C)
      → Consistent s
      → e.id ≡ id
      → id < s.next_id
      → lookup e.key s.by_key ≡ none
      → lookup id s.entries ≡ none
      → Consistent (put s id e)
  unfolding put save_locked
  put-Consistent s id e v same below new free = record {
    positive = v.positive;
    unique = insert-IsUnique id e s.entries v.unique;
    forward = λ j f h. ground (
      arith,
      lookup-insert id j e s.entries,
      lookup-insert e.key f.key id s.by_key,
      v.forward j f,
      text_eq_iff e.key f.key,
    );
    backward = λ k j h. ground (
      arith,
      lookup-insert id j e s.entries,
      lookup-insert e.key k id s.by_key,
      v.backward k j,
      text_eq_iff e.key k,
    );
  }

  -- An entry that keeps its identifier and its text.
  pub write_at-Consistent :
      (s : Store C) (id : ℕ) (e f : Key C)
      → Consistent s
      → lookup id s.entries ≡ some e
      → f.id ≡ e.id
      → f.key ≡ e.key
      → Consistent (write_at s id f)
  unfolding write_at save_locked
  write_at-Consistent s id e f v at same_id same_key = record {
    positive = v.positive;
    unique = insert-IsUnique id f s.entries v.unique;
    forward =
        λ j g h. ground (arith, lookup-insert id j f s.entries, v.forward j g, v.forward id e at);
    backward = λ k j h. ground (arith, lookup-insert id j f s.entries, v.backward k j);
  }

  -- The removal of an entry with its text.
  pub erased-Consistent :
      (s : Store C) (id : ℕ) (e : Key C)
      → Consistent s
      → lookup id s.entries ≡ some e
      → Consistent
          (save_locked (record s { entries = erase id s.entries; by_key = erase e.key s.by_key }))
  unfolding save_locked
  erased-Consistent s id e v at = record {
    positive = v.positive;
    unique = erase-IsUnique id s.entries v.unique;
    forward = λ j g h. ground (
      arith,
      lookup-erase id j s.entries,
      lookup-erase e.key g.key s.by_key,
      v.forward j g,
      v.forward id e at,
      text_eq_iff e.key g.key,
    );
    backward = λ k j h. ground (
      arith,
      lookup-erase id j s.entries,
      lookup-erase e.key k s.by_key,
      v.backward k j,
      text_eq_iff e.key k,
    );
  }

  -- The move of an entry to an identifier that is free.
  pub moved-Consistent :
      (s : Store C) (id to : ℕ) (e f : Key C)
      → Consistent s
      → lookup id s.entries ≡ some e
      → lookup to s.entries ≡ none
      → to < s.next_id
      → f.id ≡ to
      → f.key ≡ e.key
      → Consistent (
          save_locked (record s {
            entries = insert to f (erase id s.entries);
            by_key = insert e.key to s.by_key;
          }))
  unfolding save_locked
  moved-Consistent s id to e f v at free below same_id same_key = record {
    positive = v.positive;
    unique = insert-IsUnique to f (erase id s.entries) (erase-IsUnique id s.entries v.unique);
    forward = λ j g h. ground (
      arith,
      lookup-insert to j f (erase id s.entries),
      lookup-erase id j s.entries,
      lookup-insert e.key g.key to s.by_key,
      v.forward j g,
      v.forward id e at,
      text_eq_iff e.key g.key,
    );
    backward = λ k j h. ground (
      arith,
      lookup-insert to j f (erase id s.entries),
      lookup-erase id j s.entries,
      lookup-insert e.key k to s.by_key,
      v.backward k j,
      v.forward id e at,
      text_eq_iff e.key k,
    );
  }

  -- A new text for an entry.
  pub rotated-Consistent :
      (s : Store C) (id : ℕ) (e f : Key C)
      → Consistent s
      → lookup id s.entries ≡ some e
      → f.id ≡ e.id
      → lookup f.key s.by_key ≡ none
      → Consistent (
          save_locked (record s {
            entries = insert id f s.entries;
            by_key = insert f.key id (erase e.key s.by_key);
          }))
  unfolding save_locked
  rotated-Consistent s id e f v at same new = record {
    positive = v.positive;
    unique = insert-IsUnique id f s.entries v.unique;
    forward = λ j g h. ground (
      arith,
      lookup-insert id j f s.entries,
      lookup-insert f.key g.key id (erase e.key s.by_key),
      lookup-erase e.key g.key s.by_key,
      v.forward j g,
      v.forward id e at,
      text_eq_iff e.key g.key,
      text_eq_iff f.key g.key,
    );
    backward = λ k j h. ground (
      arith,
      lookup-insert id j f s.entries,
      lookup-insert f.key k id (erase e.key s.by_key),
      lookup-erase e.key k s.by_key,
      v.backward k j,
      v.forward id e at,
      text_eq_iff e.key k,
      text_eq_iff f.key k,
    );
  }
