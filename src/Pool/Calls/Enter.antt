-- ===== src/Pool/Calls/Enter.antt =====
-- New objects of the pool: an account that is set up, and a login.
use chatgpt_prism2api.Base.{
  ℕ, ◌+◌, ◌≤◌, ◌≡◌, refl, ap, subst, ◌∙◌, Bool, Option, none, some, [], ◌∷◌, ◌++◌, arith,
  Bool-cases, inl, inr,
}
use chatgpt_prism2api.Base.Int.{ℤ}
use chatgpt_prism2api.Base.Text.{Text}
use chatgpt_prism2api.Base.Dict.{lookup, insert, lookup-insert, text_key, nat_eq}
use chatgpt_prism2api.Account.State.{Token, new_account}
use chatgpt_prism2api.Account.Slots.{set_concurrency}
use chatgpt_prism2api.Tasks.Store.Retention.{snoc-NoRepeat}
use chatgpt_prism2api.Pool.Member.{Member, new_member, copy_member, set_token}
use chatgpt_prism2api.Pool.Document.{Nonces}
use chatgpt_prism2api.Pool.Names.{valid_name}
use chatgpt_prism2api.Pool.State.{State, get_account, replace_named, with_concurrency, change_in}
use chatgpt_prism2api.Pool.Calls.{
  allocate, add_api_key, set_token_of, placed_in, copied, copied_from, found_or_made,
}
use chatgpt_prism2api.Pool.Calls.Sound.{
  IsSound, Agree, name_at, names, IsKnown, names-Agree, IsKnown-Agree, Waits-Agree, find_named-none,
  replace_named-known, names-replace_named, names-append, known-append,
}
use chatgpt_prism2api.Pool.Calls.Preserve.{same_names, change_names, save-IsSound}

module _ {F : Type 0} where
  allocate_agrees :
      (y : State F) (m : Member F)
      → Agree y.fresh (name_at y.heap) (name_at (insert y.fresh m y.heap))
  allocate_agrees y m h l = ground (arith, lookup-insert y.fresh h m y.heap)

  allocate_named :
      (y : State F) (m : Member F) → name_at (insert y.fresh m y.heap) y.fresh ≡ some m.account.name
  allocate_named y m = ground (arith, lookup-insert y.fresh y.fresh m y.heap)

  allocate_below :
      (y : State F) (m : Member F)
      → IsSound y
      → (h : ℕ) → y.fresh + 1 ≤ h
      → name_at (insert y.fresh m y.heap) h ≡ none
  allocate_below y m s h l =
      ground (arith, lookup-insert y.fresh h m y.heap, s.below h (omega arith))

  -- A new object at the end of the list, under a name that no account has.
  append-IsSound :
      (y : State F) (m : Member F)
      → IsSound y
      → get_account y m.account.name ≡ none
      → IsSound (record (allocate y m) { accounts = y.accounts ++ y.fresh ∷ [] })
  unfolding allocate get_account
  append-IsSound y m s e =
      let k = name_at (insert y.fresh m y.heap) in
      let agree = allocate_agrees y m in
      let named = allocate_named y m in
      let free = find_named-none y.heap m.account.name y.fresh y.accounts s.known e in
      record {
        distinct =
            rw
              (
                names-append k y.accounts y.fresh,
                named,
                names-Agree y.fresh (name_at y.heap) k y.accounts agree s.known,
              )
              (snoc-NoRepeat m.account.name (names (name_at y.heap) y.accounts) s.distinct free);
        known =
            known-append (IsKnown (y.fresh + 1) k) y.accounts y.fresh
              (IsKnown-Agree y.fresh (y.fresh + 1) (name_at y.heap) k y.accounts agree (omega arith)
                s.known)
              ((m.account.name, named), omega arith);
        once = s.once;
        waiting =
            Waits-Agree y.fresh (y.fresh + 1) (name_at y.heap) k y.dirty agree (omega arith)
              s.waiting;
        below = allocate_below y m s;
      }

  -- A new object in the place of the account with its name.
  replace-IsSound :
      (y : State F) (m : Member F)
      → IsSound y
      → IsSound (record (allocate y m) {
        accounts = replace_named y.heap m.account.name y.fresh y.accounts;
      })
  unfolding allocate
  replace-IsSound y m s =
      let k = name_at (insert y.fresh m y.heap) in
      let agree = allocate_agrees y m in
      let named = allocate_named y m in
      let name = m.account.name in
      record {
        distinct =
            rw (names-replace_named y.heap name y.fresh y.fresh k y.accounts agree named s.known)
              s.distinct;
        known =
            replace_named-known (IsKnown (y.fresh + 1) k) y.heap name y.fresh y.accounts
              ((name, named), omega arith)
              (IsKnown-Agree y.fresh (y.fresh + 1) (name_at y.heap) k y.accounts agree (omega arith)
                s.known);
        once = s.once;
        waiting =
            Waits-Agree y.fresh (y.fresh + 1) (name_at y.heap) k y.dirty agree (omega arith)
              s.waiting;
        below = allocate_below y m s;
      }

  pub concurrency_name :
      (c : Option (ℤ × ℤ)) (m : Member F) → (with_concurrency c m).account.name ≡ m.account.name
  unfolding set_concurrency
  concurrency_name none m = refl
  concurrency_name (some c) m = refl

  copied_name :
      (o : Option (Member F)) (m : Member F) → (copied_from o m).account.name ≡ m.account.name
  unfolding copy_member
  copied_name none m = refl
  copied_name (some src) m = refl

  placed-IsSound :
      (y : State F) (old : Option ℕ) (m : Member F)
      → IsSound y
      → get_account y m.account.name ≡ old
      → IsSound (record (allocate y m) {
        accounts = placed_in old y.heap m.account.name y.fresh y.accounts;
      })
  placed-IsSound y none m s e = append-IsSound y m s e
  placed-IsSound y (some h) m s e = replace-IsSound y m s

  made_name :
      (y : State F) (old : Option ℕ) (name uuid api_key : Text)
      → (with_concurrency y.concurrency
          (copied old y.heap (new_member name uuid api_key))).account.name
        ≡ name
  unfolding new_member new_account
  made_name y none name uuid api_key = concurrency_name y.concurrency _
  made_name y (some h) name uuid api_key =
      concurrency_name y.concurrency _
      ∙ copied_name (lookup h y.heap) (new_member name uuid api_key)

  pub add_api_key-IsSound :
      (encrypt : Text → ℕ → Text → Text) (key : Text) (y : State F) (name api_key uuid : Text)
      (n : Nonces) (ok : Bool)
      → IsSound y
      → IsSound (add_api_key encrypt key y name api_key uuid n ok).0
  unfolding add_api_key
  add_api_key-IsSound encrypt key y name api_key uuid n ok s =
      let old = get_account y name in
      let m = with_concurrency y.concurrency (copied old y.heap (new_member name uuid api_key)) in
      let same = made_name y old name uuid api_key in
      elim (Bool-cases (valid_name name)) [
        | inl q ↦ rw q (
            save-IsSound encrypt key _ y.fresh n ok (
              subst
                (λ x.
                  IsSound (record (allocate y m) {
                    accounts = placed_in old y.heap x y.fresh y.accounts;
                  }))
                same (placed-IsSound y old m s (ap (get_account y) same))))
        | inr q ↦ rw q s
      ]

  set_token_name : (m : Member F) (t : Option Token) → (set_token m t).account.name ≡ m.account.name
  unfolding set_token
  set_token_name m t = refl

  found-IsSound :
      (y : State F) (old : Option ℕ) (name uuid : Text)
      → IsSound y
      → get_account y name ≡ old
      → IsSound (found_or_made old y name uuid).0
  unfolding new_member new_account get_account
  found-IsSound y (some h) name uuid s e = s
  found-IsSound y none name uuid s e =
      let m = with_concurrency y.concurrency (new_member name uuid []) in
      append-IsSound y m s
        (ap (get_account y) (concurrency_name y.concurrency (new_member name uuid [])) ∙ e)

  pub set_token_of-IsSound :
      (encrypt : Text → ℕ → Text → Text) (key : Text) (y : State F) (name : Text)
      (tok : Option Token) (uuid : Text) (n : Nonces) (ok : Bool)
      → IsSound y
      → IsSound (set_token_of encrypt key y name tok uuid n ok).0
  unfolding set_token_of
  set_token_of-IsSound encrypt key y name tok uuid n ok s =
      let (z, h) = found_or_made (get_account y name) y name uuid in
      let f : Member F → Member F = λ m. set_token m tok in
      save-IsSound encrypt key _ h n ok (
        same_names z (change_in f (lookup h z.heap) h z.heap)
          (found-IsSound y (get_account y name) name uuid s refl)
          (change_names f h z.heap (lookup h z.heap) (λ m. set_token_name m tok) refl))
