-- ===== src/Pool/Calls/Sound.antt =====
-- Each name has one account in the pool, and each account that waits to be saved waits under its name.
use chatgpt_prism2api.Base.{
  ℕ, ◌<◌, ◌≤◌, ◌≡◌, refl, subst, ◌∙◌, true, false, Option, none, some, List, [], ◌∷◌, ◌++◌, arith,
  if◌then◌else◌, All, Bool-cases, inl, inr,
}
use chatgpt_prism2api.Base.Text.{Text, text_eq, text_eq_iff}
use chatgpt_prism2api.Base.Dict.{lookup, insert, erase, text_key, nat_eq}
use chatgpt_prism2api.Base.Dict.Unique.{IsUnique}
use chatgpt_prism2api.GroupNames.{has_name}
use chatgpt_prism2api.GroupNames.Laws.{NoRepeat}
use chatgpt_prism2api.Pool.Member.{Member}
use chatgpt_prism2api.Pool.State.{State, find_named, named, replace_named, drop_named}

module _ {F : Type 0} where
  abbrev pub name_of : Option (Member F) → Option Text
  name_of none = none
  name_of (some m) = some m.account.name

  -- The name of each object of a heap.
  abbrev pub name_at : List (ℕ × Member F) → ℕ → Option Text
  name_at heap h = name_of (lookup h heap)

abbrev pub or_empty : Option Text → Text
or_empty none = []
or_empty (some n) = n

abbrev pub names : (ℕ → Option Text) → List ℕ → List Text
names g [] = []
names g (h ∷ hs) = or_empty (g h) ∷ names g hs

-- An object that exists, with the name under which it waits.
abbrev pub Waits : ℕ → (ℕ → Option Text) → Text × ℕ → Type 0
Waits fresh g (name, h) = (g h ≡ some name) × (h < fresh)

abbrev pub IsKnown : ℕ → (ℕ → Option Text) → ℕ → Type 0
IsKnown fresh g h = ((name : Text) × (g h ≡ some name)) × (h < fresh)

-- The names of the accounts are distinct, every account and every waiting object exists, and a waiting
-- object waits once, under its own name.
pub record IsSound {F : Type 0} (y : State F) : Type 0 where
  pub distinct : NoRepeat (names (name_at y.heap) y.accounts)
  pub known : All (IsKnown y.fresh (name_at y.heap)) y.accounts
  pub once : IsUnique y.dirty
  pub waiting : All (Waits y.fresh (name_at y.heap)) y.dirty
  pub below : (h : ℕ) → y.fresh ≤ h → name_at y.heap h ≡ none

-- Two heaps with the same names below a bound.
abbrev pub Agree : ℕ → (ℕ → Option Text) → (ℕ → Option Text) → Type 0
Agree n g k = (h : ℕ) → h < n → k h ≡ g h

pub names-Agree :
    (n : ℕ) (g k : ℕ → Option Text) (hs : List ℕ)
    → Agree n g k
    → All (IsKnown n g) hs
    → names k hs ≡ names g hs
names-Agree n g k [] e a = refl
names-Agree n g k (h ∷ hs) e ((p, l), a) = rw (e h l, names-Agree n g k hs e a) refl

pub IsKnown-Agree :
    (n m : ℕ) (g k : ℕ → Option Text) (hs : List ℕ)
    → Agree n g k
    → n ≤ m
    → All (IsKnown n g) hs
    → All (IsKnown m k) hs
IsKnown-Agree n m g k [] e le a = tt
IsKnown-Agree n m g k (h ∷ hs) e le (((x, p), l), a) =
    (((x, e h l ∙ p), omega arith), IsKnown-Agree n m g k hs e le a)

pub Waits-Agree :
    (n m : ℕ) (g k : ℕ → Option Text) (ds : List (Text × ℕ))
    → Agree n g k
    → n ≤ m
    → All (Waits n g) ds
    → All (Waits m k) ds
Waits-Agree n m g k [] e le a = tt
Waits-Agree n m g k ((x, h) ∷ ds) e le ((p, l), a) =
    ((e h l ∙ p, omega arith), Waits-Agree n m g k ds e le a)

pub insert-Waits :
    (n : ℕ) (g : ℕ → Option Text) (name : Text) (h : ℕ) (ds : List (Text × ℕ))
    → g h ≡ some name
    → h < n
    → All (Waits n g) ds
    → All (Waits n g) (insert name h ds)
unfolding insert
insert-Waits n g name h [] e l a = ((e, l), tt)
insert-Waits n g name h ((j, i) ∷ ds) e l a = elim (Bool-cases (text_eq j name)) [
  | inl q ↦ rw q ((e, l), a.1)
  | inr q ↦ rw q (a.0, insert-Waits n g name h ds e l a.1)
]

pub erase-Waits :
    (n : ℕ) (g : ℕ → Option Text) (name : Text) (ds : List (Text × ℕ))
    → All (Waits n g) ds
    → All (Waits n g) (erase name ds)
unfolding erase
erase-Waits n g name [] a = tt
erase-Waits n g name ((j, i) ∷ ds) a = elim (Bool-cases (text_eq j name)) [
  | inl q ↦ rw q (erase-Waits n g name ds a.1)
  | inr q ↦ rw q (a.0, erase-Waits n g name ds a.1)
]

pub names-append :
    (g : ℕ → Option Text) (hs : List ℕ) (h : ℕ)
    → names g (hs ++ h ∷ []) ≡ names g hs ++ or_empty (g h) ∷ []
names-append g [] h = refl
names-append g (i ∷ hs) h = rw (names-append g hs h) refl

pub known-append : (P : ℕ → Type 0) (hs : List ℕ) (h : ℕ) → All P hs → P h → All P (hs ++ h ∷ [])
known-append P [] h a p = (p, tt)
known-append P (i ∷ hs) h a p = (a.0, known-append P hs h a.1 p)

module _ {F : Type 0} where
  named-true : (name : Text) (o : Option (Member F)) → named name o ≡ true → name_of o ≡ some name
  named-true name none h = cc
  named-true name (some m) h = ground (arith, text_eq_iff m.account.name name)

  named-false :
      (name x : Text) (o : Option (Member F))
      → named name o ≡ false
      → name_of o ≡ some x
      → text_eq x name ≡ false
  named-false name x none h e = cc
  named-false name x (some m) h e =
      ground (arith, text_eq_iff m.account.name name, text_eq_iff x name)

  pub find_named-none :
      (heap : List (ℕ × Member F)) (name : Text) (n : ℕ) (hs : List ℕ)
      → All (IsKnown n (name_at heap)) hs
      → find_named heap name hs ≡ none
      → has_name name (names (name_at heap) hs) ≡ false
  unfolding find_named has_name
  find_named-none heap name n [] a e = refl
  find_named-none heap name n (h ∷ hs) (((x, p), l), a) e =
      elim (Bool-cases (named name (lookup h heap))) [
        | inl q ↦ ground arith
        | inr q ↦
            rw (p, named-false name x (lookup h heap) q p)
              (find_named-none heap name n hs a
                (subst (λ b. (if b then some h else find_named heap name hs) ≡ none) q e))
      ]

  has_name-drop_named :
      (heap : List (ℕ × Member F)) (name x : Text) (hs : List ℕ)
      → has_name x (names (name_at heap) hs) ≡ false
      → has_name x (names (name_at heap) (drop_named heap name hs)) ≡ false
  unfolding drop_named has_name
  has_name-drop_named heap name x [] e = refl
  has_name-drop_named heap name x (h ∷ hs) e = ground (arith, has_name-drop_named heap name x hs)

  pub drop_named-NoRepeat :
      (heap : List (ℕ × Member F)) (name : Text) (hs : List ℕ)
      → NoRepeat (names (name_at heap) hs)
      → NoRepeat (names (name_at heap) (drop_named heap name hs))
  unfolding drop_named
  drop_named-NoRepeat heap name [] u = tt
  drop_named-NoRepeat heap name (h ∷ hs) u = elim (Bool-cases (named name (lookup h heap))) [
    | inl q ↦ rw q u.1
    | inr q ↦ rw q (has_name-drop_named heap name _ hs u.0, drop_named-NoRepeat heap name hs u.1)
  ]

  pub drop_named-known :
      (P : ℕ → Type 0) (heap : List (ℕ × Member F)) (name : Text) (hs : List ℕ)
      → All P hs
      → All P (drop_named heap name hs)
  unfolding drop_named
  drop_named-known P heap name [] a = tt
  drop_named-known P heap name (h ∷ hs) a = elim (Bool-cases (named name (lookup h heap))) [
    | inl q ↦ rw q a.1
    | inr q ↦ rw q (a.0, drop_named-known P heap name hs a.1)
  ]

  pub replace_named-known :
      (P : ℕ → Type 0) (heap : List (ℕ × Member F)) (name : Text) (new : ℕ) (hs : List ℕ)
      → P new
      → All P hs
      → All P (replace_named heap name new hs)
  unfolding replace_named
  replace_named-known P heap name new [] p a = tt
  replace_named-known P heap name new (h ∷ hs) p a =
      elim (Bool-cases (named name (lookup h heap))) [
        | inl q ↦ rw q (p, a.1)
        | inr q ↦ rw q (a.0, replace_named-known P heap name new hs p a.1)
      ]

  -- Under names that agree, the replaced list has the names of the list.
  pub names-replace_named :
      (heap : List (ℕ × Member F)) (name : Text) (new n : ℕ) (k : ℕ → Option Text) (hs : List ℕ)
      → Agree n (name_at heap) k
      → k new ≡ some name
      → All (IsKnown n (name_at heap)) hs
      → names k (replace_named heap name new hs) ≡ names (name_at heap) hs
  unfolding replace_named
  names-replace_named heap name new n k [] e p a = refl
  names-replace_named heap name new n k (h ∷ hs) e p ((x, l), a) =
      elim (Bool-cases (named name (lookup h heap))) [
        | inl q ↦
            rw (q, p, named-true name (lookup h heap) q, names-Agree n (name_at heap) k hs e a) refl
        | inr q ↦ rw (q, e h l, names-replace_named heap name new n k hs e p a) refl
      ]
