-- ===== src/Pool/Calls.antt =====
-- internal/pool/pool.go: the calls on the pool.
pub mod Sound
pub mod Preserve
pub mod Enter
pub mod Invariant
pub mod Durable
use chatgpt_prism2api.Base.{
  ℕ, zero, suc, ◌+◌, ◌%◌, Bool, true, false, not, ◌&&◌, ◌||◌, Option, none, some, List, [], ◌∷◌,
  ◌++◌, if◌then◌else◌, length, get_elem?,
}
use chatgpt_prism2api.Base.Int.{ℤ}
use chatgpt_prism2api.Base.Text.{Text, text_eq, is_empty, trim_space}
use chatgpt_prism2api.Base.Dict.{lookup, insert, erase, text_key, nat_eq}
use chatgpt_prism2api.Account.State.{Account, Token, set_groups, set_rpm, rename_group}
use chatgpt_prism2api.GroupNames.{has_name}
use chatgpt_prism2api.Account.Ready.{available}
use chatgpt_prism2api.Pool.Member.{Member, new_member, copy_member, set_token}
use chatgpt_prism2api.Pool.Document.{Nonces}
use chatgpt_prism2api.Pool.Names.{valid_name}
use chatgpt_prism2api.Pool.State.{
  State, PoolOutcome, saved_or_not, get_account, replace_named, drop_named, with_concurrency,
  update, save_account, change_in,
}

abbrev pub values : List (Text × ℕ) → List ℕ
values [] = []
values ((name, h) ∷ dirty) = h ∷ values dirty

abbrev pub elem_or_zero : Option ℕ → ℕ
elem_or_zero none = 0
elem_or_zero (some h) = h

module _ {F : Type 0} where
  -- A new object with its first member.
  unfoldable pub allocate : State F → Member F → State F
  allocate y m = record y { heap = insert y.fresh m y.heap; fresh = y.fresh + 1 }

  abbrev pub on_account : (Account → Account) → Member F → Member F
  on_account f m = record m { account = f m.account }

  abbrev pub copied_from : Option (Member F) → Member F → Member F
  copied_from none m = m
  copied_from (some src) m = copy_member m src

  abbrev pub copied : Option ℕ → List (ℕ × Member F) → Member F → Member F
  copied none heap m = m
  copied (some h) heap m = copied_from (lookup h heap) m

  -- The list with the new object, in the place of the old one or at the end.
  abbrev pub placed_in : Option ℕ → List (ℕ × Member F) → Text → ℕ → List ℕ → List ℕ
  placed_in none heap name new hs = hs ++ new ∷ []
  placed_in (some h) heap name new hs = replace_named heap name new hs

  abbrev pub found_or_made : Option ℕ → State F → Text → Text → State F × ℕ
  found_or_made (some h) y name uuid = (y, h)
  found_or_made none y name uuid =
      let z = allocate y (with_concurrency y.concurrency (new_member name uuid [])) in
      (record z { accounts = y.accounts ++ y.fresh ∷ [] }, y.fresh)

  -- `SetGroups`, `SetRPM` and the other calls that change one account by its name.
  abbrev pub update_handle : State F → Option ℕ → (Account → Account) → State F × PoolOutcome
  update_handle y none f = (y, PoolOutcome.not_found)
  update_handle y (some h) f = (update y h (on_account f), PoolOutcome.done)

  unfoldable pub update_named : State F → Text → (Account → Account) → State F × PoolOutcome
  unfolding update
  update_named y name f = update_handle y (get_account y name) f

  -- `SetGroups` and `SetRPM` of the pool.
  unfoldable pub set_groups_of : State F → Text → List Text → State F × PoolOutcome
  unfolding update_named
  set_groups_of y name groups = update_named y name (λ a. set_groups a groups)

  unfoldable pub set_rpm_of : State F → Text → ℤ → State F × PoolOutcome
  unfolding update_named
  set_rpm_of y name rpm = update_named y name (λ a. set_rpm a rpm)

  -- Whether `Account.RenameGroup` changes the account, and so saves it.
  abbrev pub renames : Text → Text → Option (Member F) → Bool
  renames old new none = false
  renames old new (some m) =
      not (
        is_empty (trim_space old)
        || is_empty (trim_space new)
        || text_eq (trim_space old) (trim_space new))
      && has_name (trim_space old) m.account.groups

  -- `RenameGroup`.
  unfoldable pub rename_each : Text → Text → List ℕ → State F → State F
  unfolding update
  rename_each old new [] y = y
  rename_each old new (h ∷ hs) y = rename_each old new hs (
      if renames old new (lookup h y.heap)
      then update y h (on_account (λ a. rename_group a old new))
      else y)

  unfoldable pub rename_group_everywhere : State F → Text → Text → State F
  unfolding rename_each
  rename_group_everywhere y old new = rename_each old new y.accounts y

  -- `Remove`, of a backend that deletes the document or fails to.
  unfoldable pub remove : State F → Text → Bool → State F × PoolOutcome
  unfolding drop_named
  remove y name ok = (
    record y {
      accounts = drop_named y.heap name y.accounts;
      dirty = erase name y.dirty;
      docs = if ok then erase name y.docs else y.docs;
    },
    saved_or_not ok,
  )

  -- `Flush` up to its first unlocking: what is dirty, taken over.
  unfoldable pub flush_take : State F → State F × List ℕ
  flush_take y = (record y { dirty = [] }, values y.dirty)

  -- `SetConcurrencyResolver`.
  unfoldable pub connect_each : ℤ × ℤ → List ℕ → State F → State F
  connect_each c [] y = y
  connect_each c (h ∷ hs) y =
      connect_each c hs
        (record y { heap = change_in (with_concurrency (some c)) (lookup h y.heap) h y.heap })

  unfoldable pub set_concurrency_resolver : State F → ℤ × ℤ → State F
  unfolding connect_each
  set_concurrency_resolver y c = connect_each c y.accounts (record y { concurrency = some c })

  module _ (is_expired : ℕ → Text → Bool) where
    -- `a.available()` on an object, which the check of the limits prunes.
    abbrev pub probe_member :
        Option (Member F) → ℕ → ℕ → List (ℕ × Member F) → List (ℕ × Member F) × Bool
    probe_member none h now heap = (heap, false)
    probe_member (some m) h now heap =
        let (a, ok) = available is_expired m.account now in
        (insert h (record m { account = a }) heap, ok)

    unfoldable pub probe : State F → ℕ → ℕ → State F × Bool
    unfolding available
    probe y h now =
        let (heap, ok) = probe_member (lookup h y.heap) h now y.heap in
        (record y { heap = heap }, ok)

    -- The loop of `Next`, for as many turns as are left.
    unfoldable pub next_turns : ℕ → State F → ℕ → State F × Option ℕ
    unfolding probe
    next_turns zero y now = (y, none)
    next_turns (suc k) y now =
        let i = (y.rr + 1) % length y.accounts in
        let h = elem_or_zero (get_elem? y.accounts i) in
        let (z, ok) = probe (record y { rr = i }) h now in
        let rest = next_turns k z now in if ok then (z, some h) else rest

    -- `Next`.
    unfoldable pub next : State F → ℕ → State F × Option ℕ
    unfolding next_turns
    next y now = next_turns (length y.accounts) y now

    -- `HasAvailable`.
    unfoldable pub any_available : List ℕ → State F → ℕ → State F × Bool
    unfolding probe
    any_available [] y now = (y, false)
    any_available (h ∷ hs) y now =
        let (z, ok) = probe y h now in
        let rest = any_available hs z now in if ok then (z, true) else rest

    unfoldable pub has_available : State F → ℕ → State F × Bool
    unfolding any_available
    has_available y now = any_available y.accounts y now

  module _ (encrypt : Text → ℕ → Text → Text) (key : Text) where
    -- `AddAPIKey`: a new object, which takes over the settings and the place of the one with its name.
    unfoldable pub add_api_key :
        State F → Text → Text → Text → Nonces → Bool → State F × PoolOutcome
    unfolding allocate get_account replace_named save_account
    add_api_key y name api_key uuid n ok =
        let old = get_account y name in
        let made = copied old y.heap (new_member name uuid api_key) in
        let z = allocate y (with_concurrency y.concurrency made) in
        let placed = record z { accounts = placed_in old y.heap name y.fresh y.accounts } in
        if valid_name name
        then (save_account encrypt key placed y.fresh n ok, saved_or_not ok)
        else (y, PoolOutcome.invalid_name)

    -- `SetToken`: on the object of the name, which is made when there is none.
    unfoldable pub set_token_of :
        State F → Text → Option Token → Text → Nonces → Bool → State F × PoolOutcome
    unfolding allocate get_account save_account set_token
    set_token_of y name tok uuid n ok =
        let (z, h) = found_or_made (get_account y name) y name uuid in
        let w = record z { heap = change_in (λ m. set_token m tok) (lookup h z.heap) h z.heap } in
        (save_account encrypt key w h n ok, saved_or_not ok)

    -- The rest of `Flush`: each object that was taken is saved, and an error is forgotten.
    unfoldable pub flush_write : List ℕ → State F → (ℕ → Nonces) → (ℕ → Bool) → State F
    unfolding save_account
    flush_write [] y n ok = y
    flush_write (h ∷ hs) y n ok = flush_write hs (save_account encrypt key y h (n h) (ok h)) n ok

    unfoldable pub flush : State F → (ℕ → Nonces) → (ℕ → Bool) → State F
    unfolding flush_take flush_write
    flush y n ok = let (z, hs) = flush_take y in flush_write hs z n ok
