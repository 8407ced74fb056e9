-- ===== src/Pool/Load.antt =====
-- internal/pool/pool.go: `loadAll`.
-- A document that `encoding/json` does not read is left out of the argument.
use chatgpt_prism2api.Base.{
  ℕ, Bool, not, ◌||◌, Option, none, some, List, [], ◌∷◌, ◌++◌, if◌then◌else◌,
}
use chatgpt_prism2api.Base.Text.{Text, text_eq, text_lt, codes}
use chatgpt_prism2api.Base.Dict.{nat_eq}
use chatgpt_prism2api.Pool.Member.{Member, Persisted, is_on}
use chatgpt_prism2api.Pool.Document.{Nonces, load_member}
use chatgpt_prism2api.Pool.Names.{valid_name}
use chatgpt_prism2api.Pool.State.{State, with_concurrency, save_account}
use chatgpt_prism2api.Pool.Calls.{allocate}

abbrev bool_eq : Bool → Bool → Bool
bool_eq a b = if a then b else not b

module _ {F : Type 0} where
  -- `sort.Strings(names)`, on the documents themselves.
  unfoldable insert_by_name :
      Text × Persisted F → List (Text × Persisted F) → List (Text × Persisted F)
  insert_by_name d [] = d ∷ []
  insert_by_name d (e ∷ ds) =
      let rest = insert_by_name d ds in if text_lt d.0 e.0 then d ∷ e ∷ ds else e ∷ rest

  unfoldable sort_by_name : List (Text × Persisted F) → List (Text × Persisted F)
  unfolding insert_by_name
  sort_by_name [] = []
  sort_by_name (d ∷ ds) = insert_by_name d (sort_by_name ds)

  -- Whether the quota policy changed what the document says.
  abbrev differs : Member F → Persisted F → Bool
  differs m rec =
      not (bool_eq m.account.enabled (is_on rec.enabled))
      || not (text_eq m.account.disable_reason rec.disable_reason)

  module _ (encrypt : Text → ℕ → Text → Text) (key : Text) where
    abbrev add_loaded : Option (Member F) → Persisted F → State F → Nonces → Bool → State F
    add_loaded none rec y n ok = y
    add_loaded (some m) rec y n ok =
        let z = allocate y (with_concurrency y.concurrency m) in
        let w = record z { accounts = y.accounts ++ y.fresh ∷ [] } in
        if differs m rec then save_account encrypt key w y.fresh n ok else w

    module _ (is_full : F → Bool) (plan_is_full : F → F → Bool)
        (decrypt : Text → Text → Option Text) (uuid : Text → Text) (n : Text → Nonces)
        (ok : Text → Bool) where
      -- The body of the loop; "groups" names another document of the old layout.
      unfoldable load_one : Text × Persisted F → State F → State F
      unfolding allocate save_account load_member
      load_one (name, rec) y =
          if text_eq name (codes "groups") || not (valid_name name)
          then y
          else add_loaded (load_member is_full plan_is_full decrypt key name rec (uuid name)) rec y
              (n name) (ok name)

      unfoldable load_each : List (Text × Persisted F) → State F → State F
      unfolding load_one
      load_each [] y = y
      load_each (d ∷ ds) y = load_each ds (load_one d y)

      -- `loadAll`; `listed` is whether the backend lists its documents.
      unfoldable pub load_all : State F → Bool → State F
      unfolding sort_by_name load_each
      load_all y listed = if listed then load_each (sort_by_name y.docs) y else y
