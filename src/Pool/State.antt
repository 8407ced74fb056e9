-- ===== src/Pool/State.antt =====
-- internal/pool/pool.go: the pool, its objects, its documents and the accounts that wait to be saved.
-- An object is a number that the heap maps to a member, so that the pool and the dirty map share objects. The
-- backend is the documents with, for each call, whether it succeeds. Each part of `Flush` under one mutex is a
-- function. The egress of an account is not modelled.
use chatgpt_prism2api.Base.{ℕ, Bool, false, Option, none, some, List, [], ◌∷◌, if◌then◌else◌}
use chatgpt_prism2api.Base.Int.{ℤ}
use chatgpt_prism2api.Base.Text.{Text, text_eq}
use chatgpt_prism2api.Base.Dict.{lookup, insert, text_key, nat_eq}
use chatgpt_prism2api.Account.Slots.{set_concurrency}
use chatgpt_prism2api.Pool.Member.{Member, Persisted}
use chatgpt_prism2api.Pool.Document.{Nonces, marshal_persisted}

-- `Pool`; `concurrency` is what `concurrencyFn` returns at present, if one is set.
pub record State (F : Type 0) : Type 0 where
  pub heap : List (ℕ × Member F)
  pub fresh : ℕ
  pub accounts : List ℕ
  pub rr : ℕ
  pub dirty : List (Text × ℕ)
  pub docs : List (Text × Persisted F)
  pub concurrency : Option (ℤ × ℤ)

pub data PoolOutcome : Type 0 where
  done invalid_name not_saved not_found : PoolOutcome

abbrev pub saved_or_not : Bool → PoolOutcome
saved_or_not ok = if ok then done else not_saved

module _ {F : Type 0} where
  abbrev pub named : Text → Option (Member F) → Bool
  named name none = false
  named name (some m) = text_eq m.account.name name

  -- `getLocked`: the first object of the list with the name.
  unfoldable pub find_named : List (ℕ × Member F) → Text → List ℕ → Option ℕ
  find_named heap name [] = none
  find_named heap name (h ∷ hs) =
      let rest = find_named heap name hs in if named name (lookup h heap) then some h else rest

  -- `Get`.
  unfoldable pub get_account : State F → Text → Option ℕ
  unfolding find_named
  get_account y name = find_named y.heap name y.accounts

  abbrev has_id : Text → Option (Member F) → Bool
  has_id id none = false
  has_id id (some m) = text_eq m.account.id id

  -- `GetByID`.
  unfoldable find_account_id : List (ℕ × Member F) → Text → List ℕ → Option ℕ
  find_account_id heap id [] = none
  find_account_id heap id (h ∷ hs) =
      let rest = find_account_id heap id hs in if has_id id (lookup h heap) then some h else rest

  unfoldable pub get_by_id : State F → Text → Option ℕ
  unfolding find_account_id
  get_by_id y id = find_account_id y.heap id y.accounts

  -- `p.accounts[i] = acc` for the first object with the name.
  unfoldable pub replace_named : List (ℕ × Member F) → Text → ℕ → List ℕ → List ℕ
  replace_named heap name new [] = []
  replace_named heap name new (h ∷ hs) =
      let rest = replace_named heap name new hs in
      if named name (lookup h heap) then new ∷ hs else h ∷ rest

  -- The first object with the name taken out.
  unfoldable pub drop_named : List (ℕ × Member F) → Text → List ℕ → List ℕ
  drop_named heap name [] = []
  drop_named heap name (h ∷ hs) =
      let rest = drop_named heap name hs in if named name (lookup h heap) then hs else h ∷ rest

  -- `applyConcurrencyLocked`.
  abbrev pub with_concurrency : Option (ℤ × ℤ) → Member F → Member F
  with_concurrency none m = m
  with_concurrency (some c) m = record m { account = set_concurrency m.account (some c) }

  -- `markDirty`.
  abbrev pub mark_named : Option (Member F) → ℕ → List (Text × ℕ) → List (Text × ℕ)
  mark_named none h dirty = dirty
  mark_named (some m) h dirty = insert (m.account.name) h dirty

  unfoldable pub mark_dirty : State F → ℕ → State F
  mark_dirty y h = record y { dirty = mark_named (lookup h y.heap) h y.dirty }

  -- A method of `Account` that changes the object and calls `save`.
  abbrev pub change_in :
      (Member F → Member F) → Option (Member F) → ℕ → List (ℕ × Member F) → List (ℕ × Member F)
  change_in f none h heap = heap
  change_in f (some m) h heap = insert h (f m) heap

  unfoldable pub update : State F → ℕ → (Member F → Member F) → State F
  unfolding mark_dirty
  update y h f = mark_dirty (record y { heap = change_in f (lookup h y.heap) h y.heap }) h

  module _ (encrypt : Text → ℕ → Text → Text) (key : Text) where
    -- `saveLocked`.
    abbrev pub save_doc :
        Option (Member F) → Nonces → Bool → List (Text × Persisted F) → List (Text × Persisted F)
    save_doc none n ok docs = docs
    save_doc (some m) n ok docs =
        if ok then insert (m.account.name) (marshal_persisted encrypt key m n) docs else docs

    unfoldable pub save_account : State F → ℕ → Nonces → Bool → State F
    save_account y h n ok = record y { docs = save_doc (lookup h y.heap) n ok y.docs }
