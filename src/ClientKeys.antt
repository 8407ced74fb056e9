-- ===== src/ClientKeys.antt =====
-- internal/clientkeys/store.go and types.go: the keys that clients present.
-- Every method holds the mutex and is one step. Credits are a float64: their type, zero, sum and sign
-- test are parameters. A time stamp is the text that the clock gives, a generated key the text drawn.
-- `saved` is what the last write to the backend held; a write that fails is ignored by the source.
pub mod Usage
pub mod Index
pub mod Methods
pub mod SystemKey
pub mod Verify
pub mod Cascade
use chatgpt_prism2api.Base.{
  ℕ, suc, ◌+◌, ◌%◌, ◌^◌, Bool, true, false, not, ◌&&◌, Option, none, some, List, [], ◌∷◌, leb, ltb,
  ◌==◌, if◌then◌else◌,
}
use chatgpt_prism2api.Base.Text.{Text, text_eq, trim_space, is_empty}
use chatgpt_prism2api.Base.Dict.{lookup, insert, erase, nat_eq, text_key}

-- `Key`.
pub record Key (C : Type 0) : Type 0 where
  pub id : ℕ
  pub key : Text
  pub name : Text
  pub description : Text
  pub disabled : Bool
  pub created_at : Text
  pub last_used_at : Text
  pub total_calls : ℕ
  pub total_input_tokens : ℕ
  pub total_output_tokens : ℕ
  pub total_cache_creation_tokens : ℕ
  pub total_cache_read_tokens : ℕ
  pub total_credits : C
  pub group : Text
  pub is_system : Bool

-- `Store`.
pub record Store (C : Type 0) : Type 0 where
  pub entries : List (ℕ × Key C)
  pub by_key : List (Text × ℕ)
  pub next_id : ℕ
  pub usage_dirty : ℕ
  pub saved : List (ℕ × Key C)

abbrev pub usage_flush_threshold : ℕ
usage_flush_threshold = 100

-- A sum of uint64.
abbrev pub add64 : ℕ → ℕ → ℕ
add64 a b = (a + b) % 2 ^ 64

abbrev given : Option Text → Text → Text
given none old = old
given (some new) old = new

abbrev given_trimmed : Option Text → Text → Text
given_trimmed none old = old
given_trimmed (some new) old = trim_space new

module _ {C : Type 0} where
  -- `emptyStore`.
  unfoldable pub empty_store : Store C
  empty_store = record { entries = []; by_key = []; next_id = 1; usage_dirty = 0; saved = [] }

  -- `saveLocked`; `Flush` is the same.
  unfoldable pub save_locked : Store C → Store C
  save_locked s = record s { saved = s.entries; usage_dirty = 0 }

  -- A new entry of the given identifier, as `CreateWithKey` and `EnsureSystemKey` write it.
  abbrev pub fresh_key : C → ℕ → Text → Text → Text → Text → Bool → Text → Key C
  fresh_key no_credits id plaintext name description group is_system stamp = record {
    id = id;
    key = plaintext;
    name = name;
    description = description;
    disabled = false;
    created_at = stamp;
    last_used_at = [];
    total_calls = 0;
    total_input_tokens = 0;
    total_output_tokens = 0;
    total_cache_creation_tokens = 0;
    total_cache_read_tokens = 0;
    total_credits = no_credits;
    group = group;
    is_system = is_system;
  }

  -- `s.entries[id] = e` and `s.byKey[e.Key] = id`, then a save.
  unfoldable pub put : Store C → ℕ → Key C → Store C
  unfolding save_locked
  put s id e =
      save_locked (record s { entries = insert id e s.entries; by_key = insert e.key id s.by_key })

  -- `CreateWithKey` behind its lookup: the store, and the key; none is the source's nil dereference.
  unfoldable pub create_at :
      Store C → Option ℕ → C → Text → Text → Text → Text → Text → Store C × Option (Key C)
  unfolding put
  create_at s (some id) no_credits name description group plaintext stamp = (s, lookup id s.entries)
  create_at s none no_credits name description group plaintext stamp =
      let e =
        fresh_key no_credits s.next_id plaintext name description (trim_space group) false stamp in
      (put (record s { next_id = add64 s.next_id 1 }) s.next_id e, some e)

  -- `CreateWithKey`; `Create` passes a generated text.
  unfoldable pub create_with_key :
      Store C → C → Text → Text → Text → Text → Text → Store C × Option (Key C)
  unfolding create_at
  create_with_key s no_credits name description group plaintext stamp =
      create_at s (lookup plaintext s.by_key) no_credits name description group plaintext stamp

  -- `s.entries[id] = e'` for the entry at an identifier, then a save.
  unfoldable pub write_at : Store C → ℕ → Key C → Store C
  unfolding save_locked
  write_at s id e = save_locked (record s { entries = insert id e s.entries })

  -- The entry that is marked as the system's, if there is one and it is not marked yet.
  unfoldable pub mark_system : Store C → ℕ → Option (Key C) → Store C
  unfolding write_at
  mark_system s id none = s
  mark_system s id (some e) =
      if e.is_system then s else write_at s id (record e { is_system = true })

  abbrev pub taken : Option (Key C) → Bool
  taken none = false
  taken (some e) = true

  -- The move of an entry to the identifier 0; none is the source's nil dereference.
  unfoldable pub move_to_zero : Store C → Text → ℕ → Option (Key C) → Option (Store C)
  unfolding save_locked
  move_to_zero s plaintext id none = none
  move_to_zero s plaintext id (some e) = some (
      save_locked (record s {
        entries = insert 0 (record e { id = 0; is_system = true }) (erase id s.entries);
        by_key = insert plaintext 0 s.by_key;
      }))

  -- `EnsureSystemKey` behind its lookup.
  unfoldable pub ensure_at : Store C → Option ℕ → C → Text → Text → Text → Text → Option (Store C)
  unfolding mark_system move_to_zero put
  ensure_at s (some id) no_credits name description plaintext stamp =
      if id == 0
      then some (mark_system s 0 (lookup 0 s.entries))
      else if taken (lookup 0 s.entries)
      then some (mark_system s id (lookup id s.entries))
      else move_to_zero s plaintext id (lookup id s.entries)
  ensure_at s none no_credits name description plaintext stamp =
      if taken (lookup 0 s.entries)
      then some (
          put (record s { next_id = add64 s.next_id 1 }) s.next_id
            (fresh_key no_credits s.next_id plaintext name description [] true stamp))
      else some (put s 0 (fresh_key no_credits 0 plaintext name description [] true stamp))

  -- `EnsureSystemKey`.
  unfoldable pub ensure_system_key : Store C → C → Text → Text → Text → Text → Option (Store C)
  unfolding ensure_at
  ensure_system_key s no_credits name description plaintext stamp =
      if is_empty plaintext
      then some s
      else ensure_at s (lookup plaintext s.by_key) no_credits name description plaintext stamp

  -- The methods on the entry at an identifier, behind their lookup.
  unfoldable pub delete_at : Store C → ℕ → Option (Key C) → Store C × Bool
  unfolding save_locked
  delete_at s id none = (s, false)
  delete_at s id (some e) = if e.is_system then (s, false) else (
    save_locked (record s { entries = erase id s.entries; by_key = erase e.key s.by_key }),
    true,
  )

  -- `Delete`.
  unfoldable pub delete : Store C → ℕ → Store C × Bool
  unfolding delete_at
  delete s id = delete_at s id (lookup id s.entries)

  -- A change of the entry at an identifier that is saved at once.
  unfoldable pub change_at : (Key C → Key C) → Store C → ℕ → Option (Key C) → Store C × Bool
  unfolding write_at
  change_at f s id none = (s, false)
  change_at f s id (some e) = (write_at s id (f e), true)

  -- `SetDisabled`.
  unfoldable pub set_disabled : Store C → ℕ → Bool → Store C × Bool
  unfolding change_at
  set_disabled s id disabled =
      change_at (λ e. record e { disabled = disabled }) s id (lookup id s.entries)

  -- `UpdateMeta`.
  unfoldable pub update_meta :
      Store C → ℕ → Option Text → Option Text → Option Text → Store C × Bool
  unfolding change_at
  update_meta s id name description group =
      change_at
        (λ e. record e {
          name = given name e.name;
          description = given description e.description;
          group = given_trimmed group e.group;
        })
        s id (lookup id s.entries)

  -- `ResetStats`.
  unfoldable pub reset_stats : Store C → C → ℕ → Store C × Bool
  unfolding change_at
  reset_stats s no_credits id =
      change_at
        (λ e. record e {
          total_calls = 0;
          total_input_tokens = 0;
          total_output_tokens = 0;
          total_cache_creation_tokens = 0;
          total_cache_read_tokens = 0;
          total_credits = no_credits;
        })
        s id (lookup id s.entries)
