-- ===== src/Pool/Calls/Preserve.antt =====
-- The calls on the pool keep it sound.
use chatgpt_prism2api.Base.{
  ℕ, zero, suc, ◌+◌, ◌%◌, ◌<◌, ◌≡◌, refl, sym, ap, ◌∙◌, Bool, Option, none, some, List, [], ◌∷◌,
  arith, ltb, ◌==◌, Bool-cases, inl, inr, length, get_elem?,
}
use chatgpt_prism2api.Base.Text.{Text}
use chatgpt_prism2api.Base.Dict.{lookup, insert, lookup-insert, text_key, nat_eq}
use chatgpt_prism2api.Base.Dict.Unique.{insert-IsUnique, erase-IsUnique}
use chatgpt_prism2api.Account.State.{Account}
use chatgpt_prism2api.Account.Limits.{over_limit, prune_uses}
use chatgpt_prism2api.Account.Ready.{available, ready, ready_with_limits}
use chatgpt_prism2api.Pool.Member.{Member}
use chatgpt_prism2api.Pool.Document.{Nonces}
use chatgpt_prism2api.Pool.State.{State, mark_dirty, mark_named, update, save_account, change_in}
use chatgpt_prism2api.Pool.Calls.{
  remove, flush, flush_take, flush_write, next, next_turns, probe, elem_or_zero, probe_member,
}
use chatgpt_prism2api.Pool.Calls.Sound.{
  IsSound, name_of, name_at, IsKnown, names-Agree, IsKnown-Agree, Waits-Agree, insert-Waits,
  erase-Waits, drop_named-NoRepeat, drop_named-known,
}

pub none_not_some : (x : Text) → none ≡ some x → ⊥
none_not_some x e = cc

available_name :
    (is_expired : ℕ → Text → Bool) (a : Account) (now : ℕ)
    → (available is_expired a now).0.name ≡ a.name
unfolding available ready ready_with_limits over_limit prune_uses
available_name is_expired a now = refl

module _ {F : Type 0} where
  -- Nothing but the contents of objects changed.
  pub same_names :
      (y : State F) (heap : List (ℕ × Member F))
      → IsSound y
      → ((h : ℕ) → name_at heap h ≡ name_at y.heap h)
      → IsSound (record y { heap = heap })
  same_names y heap s e = record {
    distinct =
        rw (names-Agree y.fresh (name_at y.heap) (name_at heap) y.accounts (λ h l. e h) s.known)
          s.distinct;
    known =
        IsKnown-Agree y.fresh y.fresh (name_at y.heap) (name_at heap) y.accounts (λ h l. e h)
          (omega arith) s.known;
    once = s.once;
    waiting =
        Waits-Agree y.fresh y.fresh (name_at y.heap) (name_at heap) y.dirty (λ h l. e h)
          (omega arith) s.waiting;
    below = λ h l. e h ∙ s.below h l;
  }

  -- A change that keeps the name of each member.
  abbrev pub KeepsName : (Member F → Member F) → Type 0
  KeepsName f = (m : Member F) → (f m).account.name ≡ m.account.name

  pub change_names :
      (f : Member F → Member F) (h : ℕ) (heap : List (ℕ × Member F)) (o : Option (Member F))
      → KeepsName f
      → lookup h heap ≡ o
      → (i : ℕ) → name_at (change_in f o h heap) i ≡ name_at heap i
  change_names f h heap none k e i = refl
  change_names f h heap (some m) k e i = elim (Bool-cases (h == i)) [
    | inl q ↦
        let same : h ≡ i = ground arith in
        rw (lookup-insert h i (f m) heap, q, k m, sym (ap (λ j. name_at heap j) same), e) refl
    | inr q ↦ rw (lookup-insert h i (f m) heap, q) refl
  ]

  mark-IsSound :
      (y : State F) (h : ℕ) (o : Option (Member F))
      → lookup h y.heap ≡ o
      → IsSound y
      → IsSound (record y { dirty = mark_named o h y.dirty })
  mark-IsSound y h none e s = s
  mark-IsSound y h (some m) e s = record {
    distinct = s.distinct;
    known = s.known;
    once = insert-IsUnique m.account.name h y.dirty s.once;
    waiting =
        insert-Waits y.fresh (name_at y.heap) m.account.name h y.dirty (rw e refl) (small m e)
          s.waiting;
    below = s.below;
  }
    where
      small : (m : Member F) → lookup h y.heap ≡ some m → h < y.fresh
      small m e = elim (Bool-cases (ltb h y.fresh)) [
        | inl q ↦ ground arith
        | inr q ↦
            elim (none_not_some m.account.name (sym (s.below h (ground arith)) ∙ ap name_of e)) [ ]
      ]

  pub update-IsSound :
      (y : State F) (h : ℕ) (f : Member F → Member F)
      → KeepsName f
      → IsSound y
      → IsSound (update y h f)
  unfolding update mark_dirty
  update-IsSound y h f k s =
      let heap = change_in f (lookup h y.heap) h y.heap in
      mark-IsSound (record y { heap = heap }) h (lookup h heap) refl
        (same_names y heap s (change_names f h y.heap (lookup h y.heap) k refl))

  pub remove-IsSound :
      (y : State F) (name : Text) (ok : Bool) → IsSound y → IsSound (remove y name ok).0
  unfolding remove
  remove-IsSound y name ok s = record {
    distinct = drop_named-NoRepeat y.heap name y.accounts s.distinct;
    known = drop_named-known (IsKnown y.fresh (name_at y.heap)) y.heap name y.accounts s.known;
    once = erase-IsUnique name y.dirty s.once;
    waiting = erase-Waits y.fresh (name_at y.heap) name y.dirty s.waiting;
    below = s.below;
  }

  -- Saving changes the documents alone.
  pub save-IsSound :
      (encrypt : Text → ℕ → Text → Text) (key : Text) (y : State F) (h : ℕ) (n : Nonces) (ok : Bool)
      → IsSound y
      → IsSound (save_account encrypt key y h n ok)
  unfolding save_account
  save-IsSound encrypt key y h n ok s = record {
    distinct = s.distinct;
    known = s.known;
    once = s.once;
    waiting = s.waiting;
    below = s.below;
  }

  write-IsSound :
      (encrypt : Text → ℕ → Text → Text) (key : Text) (hs : List ℕ) (y : State F) (n : ℕ → Nonces)
      (ok : ℕ → Bool)
      → IsSound y
      → IsSound (flush_write encrypt key hs y n ok)
  unfolding flush_write
  write-IsSound encrypt key [] y n ok s = s
  write-IsSound encrypt key (h ∷ hs) y n ok s =
      write-IsSound encrypt key hs (save_account encrypt key y h (n h) (ok h)) n ok
        (save-IsSound encrypt key y h (n h) (ok h) s)

  pub flush-IsSound :
      (encrypt : Text → ℕ → Text → Text) (key : Text) (y : State F) (n : ℕ → Nonces) (ok : ℕ → Bool)
      → IsSound y
      → IsSound (flush encrypt key y n ok)
  unfolding flush flush_take
  flush-IsSound encrypt key y n ok s =
      write-IsSound encrypt key (flush_take y).1 (record y { dirty = [] }) n ok
        record { distinct = s.distinct; known = s.known; once = tt; waiting = tt; below = s.below }

  module _ (is_expired : ℕ → Text → Bool) where
    probe-IsSound : (y : State F) (h now : ℕ) → IsSound y → IsSound (probe is_expired y h now).0
    unfolding probe
    probe-IsSound y h now s = probe_case (lookup h y.heap) refl
      where
        probe_case :
            (o : Option (Member F))
            → lookup h y.heap ≡ o
            → IsSound (record y { heap = (probe_member is_expired o h now y.heap).0 })
        probe_case none e = s
        probe_case (some m) e =
            let f : Member F → Member F =
              λ m. record m { account = (available is_expired m.account now).0 } in
            same_names y (insert h (f m) y.heap) s
              (change_names f h y.heap (some m) (λ m. available_name is_expired m.account now) e)

    next_turns-IsSound :
        (k : ℕ) (y : State F) (now : ℕ) → IsSound y → IsSound (next_turns is_expired k y now).0
    unfolding next_turns
    next_turns-IsSound zero y now s = s
    next_turns-IsSound (suc k) y now s =
        let i = (y.rr + 1) % length y.accounts in
        let h = elem_or_zero (get_elem? y.accounts i) in
        let w : State F = record y { rr = i } in
        let (z, ok) = probe is_expired w h now in
        let here : IsSound z = probe-IsSound w h now (moved i s) in
        elim (Bool-cases ok) [ inl q ↦ rw q here | inr q ↦ rw q (next_turns-IsSound k z now here) ]
      where
        moved : (i : ℕ) → IsSound y → IsSound (record y { rr = i })
        moved i s = record {
          distinct = s.distinct;
          known = s.known;
          once = s.once;
          waiting = s.waiting;
          below = s.below;
        }

    pub next-IsSound : (y : State F) (now : ℕ) → IsSound y → IsSound (next is_expired y now).0
    unfolding next
    next-IsSound y now s = next_turns-IsSound (length y.accounts) y now s

  pub change-IsSound :
      (y : State F) (h : ℕ) (f : Member F → Member F)
      → KeepsName f
      → IsSound y
      → IsSound (record y { heap = change_in f (lookup h y.heap) h y.heap })
  change-IsSound y h f k s =
      same_names y (change_in f (lookup h y.heap) h y.heap) s
        (change_names f h y.heap (lookup h y.heap) k refl)
