-- ===== src/ClientKeys/Usage.antt =====
-- internal/clientkeys/store.go: reading, cascades of group names, rotation, verification and usage.
use chatgpt_prism2api.Base.{
  ℕ, ◌+◌, Bool, false, not, ◌&&◌, Option, none, some, List, [], ◌∷◌, leb, ltb, if◌then◌else◌,
}
use chatgpt_prism2api.Base.Text.{Text, text_eq}
use chatgpt_prism2api.Base.Dict.{lookup, insert, erase, nat_eq, text_key}
use chatgpt_prism2api.ClientKeys.{Key, Store, save_locked, add64, usage_flush_threshold}

-- The numbers of one request, with the sum and the sign test of credits.
pub record Used (C : Type 0) : Type 0 where
  pub input : ℕ
  pub output : ℕ
  pub cache_create : ℕ
  pub cache_read : ℕ
  pub credits : C
  pub plus : C → C → C
  pub is_positive : C → Bool

module _ {C : Type 0} where
  -- `Get`.
  unfoldable pub get_key : Store C → ℕ → Option (Key C)
  get_key s id = lookup id s.entries

  abbrev group_or_empty : Option (Key C) → Text
  group_or_empty none = []
  group_or_empty (some e) = e.group

  -- `GroupOf`.
  unfoldable pub group_of : Store C → ℕ → Text
  group_of s id = group_or_empty (lookup id s.entries)

  abbrev pub system_or_false : Option (Key C) → Bool
  system_or_false none = false
  system_or_false (some e) = e.is_system

  -- `IsSystem`.
  unfoldable pub is_system_key : Store C → ℕ → Bool
  is_system_key s id = system_or_false (lookup id s.entries)

  -- The loop of `RenameGroup`, and of `ClearGroup` with the empty name: the entries and the count.
  unfoldable pub regroup : Text → Text → List (ℕ × Key C) → List (ℕ × Key C) × ℕ
  regroup old new [] = ([], 0)
  regroup old new ((id, e) ∷ m) =
      let (rest, n) = regroup old new m in
      if text_eq e.group old
      then ((id, record e { group = new }) ∷ rest, n + 1)
      else ((id, e) ∷ rest, n)

  -- `RenameGroup`; nothing is saved where nothing changed.
  unfoldable pub rename_key_group : Store C → Text → Text → Store C × ℕ
  unfolding regroup save_locked
  rename_key_group s old new =
      let (entries, n) = regroup old new s.entries in
      let renamed = record s { entries = entries } in
      (if ltb 0 n then save_locked renamed else renamed, n)

  -- `ClearGroup`.
  unfoldable pub clear_group : Store C → Text → Store C × ℕ
  unfolding rename_key_group
  clear_group s name = rename_key_group s name []

  -- `Rotate` behind its lookup; the new text is the one that `Generate` draws.
  unfoldable pub rotate_at : Store C → ℕ → Text → Option (Key C) → Store C × Option (Key C)
  unfolding save_locked
  rotate_at s id fresh none = (s, none)
  rotate_at s id fresh (some e) =
      let e' = record e { key = fresh } in
      (
        save_locked (record s {
          entries = insert id e' s.entries;
          by_key = insert fresh id (erase e.key s.by_key);
        }),
        some e',
      )

  -- `Rotate`.
  unfoldable pub rotate : Store C → ℕ → Text → Store C × Option (Key C)
  unfolding rotate_at
  rotate s id fresh = rotate_at s id fresh (lookup id s.entries)

  -- The loop of `VerifyAndTouch`: the identifier of the last entry that is on and has the text.
  unfoldable pub scan : Text → Option ℕ → List (ℕ × Key C) → Option ℕ
  scan presented hit [] = hit
  scan presented hit ((id, e) ∷ m) =
      scan presented (if not e.disabled && text_eq e.key presented then some id else hit) m

  -- The end of `VerifyAndTouch`; a hit without entry is the source's nil dereference.
  unfoldable pub touch : Store C → Text → ℕ → Option (Key C) → Store C × Option (Key C)
  touch s stamp id none = (s, none)
  touch s stamp id (some e) =
      let e' = record e { total_calls = add64 e.total_calls 1; last_used_at = stamp } in
      (record s { entries = insert id e' s.entries }, some e')

  unfoldable pub touch_hit : Store C → Text → Option ℕ → Store C × Option (Key C)
  unfolding touch
  touch_hit s stamp none = (s, none)
  touch_hit s stamp (some id) = touch s stamp id (lookup id s.entries)

  -- `VerifyAndTouch`.
  unfoldable pub verify_and_touch : Store C → Text → Text → Store C × Option (Key C)
  unfolding touch_hit scan
  verify_and_touch s presented stamp = touch_hit s stamp (scan presented none s.entries)

  -- `RecordUsage` on the entry.
  unfoldable pub add_usage : Used C → Text → Key C → Key C
  add_usage u stamp e = record e {
    total_input_tokens = add64 e.total_input_tokens u.input;
    total_output_tokens = add64 e.total_output_tokens u.output;
    total_cache_creation_tokens = add64 e.total_cache_creation_tokens u.cache_create;
    total_cache_read_tokens = add64 e.total_cache_read_tokens u.cache_read;
    total_credits =
        if u.is_positive u.credits then u.plus e.total_credits u.credits else e.total_credits;
    last_used_at = stamp;
  }

  -- `RecordUsage` behind its lookup: at the threshold the store is saved.
  unfoldable pub record_at : Store C → Used C → Text → ℕ → Option (Key C) → Store C
  unfolding add_usage save_locked
  record_at s u stamp id none = s
  record_at s u stamp id (some e) =
      let s' = record s {
        entries = insert id (add_usage u stamp e) s.entries;
        usage_dirty = s.usage_dirty + 1;
      } in
      if leb usage_flush_threshold s'.usage_dirty then save_locked s' else s'

  -- `RecordUsage`.
  unfoldable pub record_usage : Store C → Used C → Text → ℕ → Store C
  unfolding record_at
  record_usage s u stamp id = record_at s u stamp id (lookup id s.entries)

  -- `ActiveCount`.
  unfoldable pub active_count : List (ℕ × Key C) → ℕ
  active_count [] = 0
  active_count ((id, e) ∷ m) =
      let rest = active_count m in if not e.disabled then rest + 1 else rest
