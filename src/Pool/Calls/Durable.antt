-- ===== src/Pool/Calls/Durable.antt =====
-- What a flush writes, also after the account was replaced or removed.
use chatgpt_prism2api.Base.{
  ℕ, ◌≡◌, refl, sym, ap, subst, ◌∙◌, Bool, true, false, Option, none, some, List, [], ◌∷◌, arith,
  ◌==◌, if◌then◌else◌, All, Bool-cases, inl, inr,
}
use chatgpt_prism2api.Base.Text.{Text, text_eq, text_eq_iff, text_eq_refl}
use chatgpt_prism2api.Base.Dict.{lookup, lookup-insert, lookup-erase, text_key, nat_eq}
use chatgpt_prism2api.Base.Dict.Unique.{IsUnique}
use chatgpt_prism2api.Pool.Member.{Member, new_member, Persisted}
use chatgpt_prism2api.Pool.Document.{Nonces, marshal_persisted}
use chatgpt_prism2api.Pool.Names.{valid_name}
use chatgpt_prism2api.Pool.State.{
  State, PoolOutcome, get_account, with_concurrency, save_doc, save_account, update, mark_dirty,
  change_in,
}
use chatgpt_prism2api.Pool.Calls.{
  allocate, add_api_key, remove, flush, flush_take, flush_write, values, copied,
}
use chatgpt_prism2api.Pool.Calls.Sound.{IsSound, name_of, name_at, Waits}
use chatgpt_prism2api.Pool.Calls.Preserve.{none_not_some, KeepsName, remove-IsSound, update-IsSound}
use chatgpt_prism2api.Pool.Calls.Enter.{add_api_key-IsSound}

unfoldable pub all_good : ℕ → Bool
all_good h = true

module _ {F : Type 0} (encrypt : Text → ℕ → Text → Text) (key : Text) where
  saved_other :
      (name j : Text) (o : Option (Member F)) (n : Nonces) (ok : Bool)
      (docs : List (Text × Persisted F))
      → name_of o ≡ some j
      → text_eq j name ≡ false
      → lookup name (save_doc encrypt key o n ok docs) ≡ lookup name docs
  saved_other name j none n ok docs e q = refl
  saved_other name j (some m) n ok docs e q = ground (
    arith,
    text_eq_iff m.account.name name,
    text_eq_iff j name,
    lookup-insert m.account.name name (marshal_persisted encrypt key m n) docs,
  )

  -- Writing objects of other names leaves the document.
  write_other :
      (name : Text) (ds : List (Text × ℕ)) (y : State F) (n : ℕ → Nonces) (ok : ℕ → Bool)
      → lookup name ds ≡ none
      → All (Waits y.fresh (name_at y.heap)) ds
      → lookup name (flush_write encrypt key (values ds) y n ok).docs ≡ lookup name y.docs
  unfolding flush_write save_account lookup
  write_other name [] y n ok e a = refl
  write_other name ((j, h) ∷ ds) y n ok e a = elim (Bool-cases (text_eq j name)) [
    | inl q ↦ ground arith
    | inr q ↦
        write_other name ds (save_account encrypt key y h (n h) (ok h)) n ok (rest q e) a.1
        ∙ saved_other name j (lookup h y.heap) (n h) (ok h) y.docs a.0.0 q
  ]
    where
      rest :
          text_eq j name ≡ false
          → (if text_eq j name then some h else lookup name ds) ≡ none
          → lookup name ds ≡ none
      rest q e = ground arith

  saved_own :
      (name : Text) (h : ℕ) (m : Member F) (y : State F) (n : Nonces)
      → lookup h y.heap ≡ some m
      → m.account.name ≡ name
      → lookup name (save_account encrypt key y h n true).docs
        ≡ some (marshal_persisted encrypt key m n)
  unfolding save_account
  saved_own name h m y n p e =
      let doc = marshal_persisted encrypt key m n in
      rw (p, lookup-insert m.account.name name doc y.docs, e, text_eq_refl name) refl

  write_own :
      (name : Text) (h : ℕ) (m : Member F) (ds : List (Text × ℕ)) (y : State F) (n : ℕ → Nonces)
      → IsUnique ds
      → All (Waits y.fresh (name_at y.heap)) ds
      → lookup name ds ≡ some h
      → lookup h y.heap ≡ some m
      → lookup name (flush_write encrypt key (values ds) y n all_good).docs
        ≡ some (marshal_persisted encrypt key m (n h))
  unfolding flush_write save_account lookup all_good
  write_own name h m [] y n u a e p = cc
  write_own name h m ((j, i) ∷ ds) y n u a e p = elim (Bool-cases (text_eq j name)) [
    | inl q ↦ here q
    | inr q ↦
        write_own name h m ds (save_account encrypt key y i (n i) true) n u.1 a.1
          (subst (λ b. (if b then some i else lookup name ds) ≡ some h) q e) p
  ]
    where
      here :
          text_eq j name ≡ true
          → lookup name
              (flush_write encrypt key
                (values ds)
                (save_account encrypt key y i (n i) true)
                n
                all_good).docs
            ≡ some (marshal_persisted encrypt key m (n h))
      here q =
          let same : j ≡ name = (text_eq_iff j name).0 q in
          let found : i ≡ h = ground arith in
          let free : lookup name ds ≡ none = subst (λ x. lookup x ds ≡ none) same u.0 in
          write_other name ds (save_account encrypt key y i (n i) true) n all_good free a.1
          ∙ subst
              (λ k.
                lookup name (save_account encrypt key y k (n k) true).docs
                ≡ some (marshal_persisted encrypt key m (n h)))
              (sym found) (saved_own name h m y (n h) p (name_is same found))
        where
          name_is : j ≡ name → i ≡ h → m.account.name ≡ name
          name_is same found =
              ground (arith, ap name_of p, subst (λ k. name_at y.heap k ≡ some j) found a.0.0)

  -- A flush whose saves succeed writes the present state of each waiting account, in a sound pool.
  pub flush_saves :
      (y : State F) (n : ℕ → Nonces) (name : Text) (h : ℕ) (m : Member F)
      → IsSound y
      → lookup name y.dirty ≡ some h
      → lookup h y.heap ≡ some m
      → lookup name (flush encrypt key y n all_good).docs
        ≡ some (marshal_persisted encrypt key m (n h))
  unfolding flush flush_take
  flush_saves y n name h m s e p =
      write_own name h m y.dirty (record y { dirty = [] }) n s.once s.waiting e p

  removed_docs : (y : State F) (name : Text) → lookup name (remove y name true).0.docs ≡ none
  unfolding remove
  removed_docs y name = ground (arith, lookup-erase name name y.docs, text_eq_refl name)

  update_heap :
      (y : State F) (h : ℕ) (m : Member F) (f : Member F → Member F)
      → lookup h y.heap ≡ some m
      → lookup h (update y h f).heap ≡ some (f m)
  unfolding update mark_dirty
  update_heap y h m f p = rw p (ground (arith, lookup-insert h h (f m) y.heap))

  update_dirty :
      {name : Text} (y : State F) (h : ℕ) (m : Member F) (f : Member F → Member F)
      → lookup h y.heap ≡ some m
      → (f m).account.name ≡ name
      → lookup name (update y h f).dirty ≡ some h
  unfolding update mark_dirty
  update_dirty {name = name} y h m f p e =
      let after : lookup h (change_in f (some m) h y.heap) ≡ some (f m) =
        ground (arith, lookup-insert h h (f m) y.heap) in
      rw (p, after, lookup-insert (f m).account.name name h y.dirty, e, text_eq_refl name) refl

  -- In a sound pool, when a request ends on an object after the account of its name was removed, the next
  -- flush whose saves succeed writes the document of the removed account again.
  pub late_mark_revives :
      (y : State F) (n : ℕ → Nonces) (name : Text) (h : ℕ) (m : Member F) (f : Member F → Member F)
      → IsSound y
      → lookup h y.heap ≡ some m
      → m.account.name ≡ name
      → KeepsName f
      → let removed = (remove y name true).0 in
        (lookup name removed.docs ≡ none)
        × (lookup name (flush encrypt key (update removed h f) n all_good).docs
            ≡ some (marshal_persisted encrypt key (f m) (n h)))
  unfolding remove
  late_mark_revives y n name h m f s p e k =
      let removed = (remove y name true).0 in
      (
        removed_docs y name,
        flush_saves (update removed h f) n name h (f m)
            (update-IsSound removed h f k (remove-IsSound y name true s))
            (update_dirty removed h m f p (k m ∙ e)) (update_heap removed h m f p),
      )

  added_answer :
      (y : State F) (name api_key uuid : Text) (drawn : Nonces)
      → valid_name name ≡ true
      → (add_api_key encrypt key y name api_key uuid drawn true).1 ≡ PoolOutcome.done
  unfolding add_api_key
  added_answer y name api_key uuid drawn v = rw v refl

  added_dirty :
      (y : State F) (name api_key uuid : Text) (drawn : Nonces)
      → valid_name name ≡ true
      → lookup name (add_api_key encrypt key y name api_key uuid drawn true).0.dirty
        ≡ lookup name y.dirty
  unfolding add_api_key allocate save_account
  added_dirty y name api_key uuid drawn v = rw v refl

  fresh_is_free :
      (y : State F) (h : ℕ) (m : Member F)
      → IsSound y
      → lookup h y.heap ≡ some m
      → (y.fresh == h) ≡ false
  fresh_is_free y h m s p = elim (Bool-cases (y.fresh == h)) [
    | inl q ↦
        elim (none_not_some m.account.name (sym (s.below h (ground arith)) ∙ ap name_of p)) [ ]
    | inr q ↦ q
  ]

  added_heap :
      (y : State F) (name api_key uuid : Text) (drawn : Nonces) (h : ℕ) (m : Member F)
      → valid_name name ≡ true
      → IsSound y
      → lookup h y.heap ≡ some m
      → lookup h (add_api_key encrypt key y name api_key uuid drawn true).0.heap ≡ some m
  unfolding add_api_key allocate save_account
  added_heap y name api_key uuid drawn h m v s p =
      let old = get_account y name in
      let made =
        with_concurrency y.concurrency (copied old y.heap (new_member name uuid api_key)) in
      rw (v, lookup-insert y.fresh h made y.heap, fresh_is_free y h m s p) p

  -- In a sound pool, when the object of a name still waits to be saved while the name is set up with a new API
  -- key, the next flush whose saves succeed writes the old object over the document of the new one.
  pub stale_mark_overwrites :
      (y : State F) (n : ℕ → Nonces) (name api_key uuid : Text) (drawn : Nonces) (old : ℕ)
      (m : Member F)
      → IsSound y
      → lookup name y.dirty ≡ some old
      → lookup old y.heap ≡ some m
      → valid_name name ≡ true
      → let (z, answer) = add_api_key encrypt key y name api_key uuid drawn true in
        (answer ≡ PoolOutcome.done)
        × (lookup name (flush encrypt key z n all_good).docs
            ≡ some (marshal_persisted encrypt key m (n old)))
  stale_mark_overwrites y n name api_key uuid drawn old m s e p v =
      let z = (add_api_key encrypt key y name api_key uuid drawn true).0 in
      (
        added_answer y name api_key uuid drawn v,
        flush_saves z n name old m
            (add_api_key-IsSound encrypt key y name api_key uuid drawn true s)
            (added_dirty y name api_key uuid drawn v ∙ e)
            (added_heap y name api_key uuid drawn old m v s p),
      )
