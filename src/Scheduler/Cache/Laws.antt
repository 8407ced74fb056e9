-- ===== src/Scheduler/Cache/Laws.antt =====
-- What the parts of the cache do to one session, and the invariant that every session is among the
-- aliases of its binding.
use chatgpt_prism2api.Base.{
  ◌≡◌, refl, not, ◌&&◌, ◌||◌, none, some, List, [], ◌∷◌, ◌++◌, arith, if◌then◌else◌, All,
  Bool-cases, inl, inr, subst,
}
use chatgpt_prism2api.Base.Text.{Text, text_eq, text_eq_iff, is_empty}
use chatgpt_prism2api.Base.Dict.{lookup, insert, erase, lookup-insert, lookup-erase, text_key}
use chatgpt_prism2api.GroupNames.{has_name}
use chatgpt_prism2api.Scheduler.Cache.{
  Entry, Entries, merge_from, merge_aliases, belongs, remove_aliases, remove_group, remove_groups,
  write_all,
}

pub has_name-append :
    (n : Text) (xs ys : List Text) → has_name n (xs ++ ys) ≡ has_name n xs || has_name n ys
unfolding has_name
has_name-append n [] ys = refl
has_name-append n (x ∷ xs) ys = ground (arith, has_name-append n xs ys)

has_name-merge_from :
    (n : Text) (seen ids : List Text)
    → has_name n (merge_from seen ids) ≡ has_name n ids && not (is_empty n) && not (has_name n seen)
unfolding merge_from has_name
has_name-merge_from n seen [] = refl
has_name-merge_from n seen (id ∷ ids) =
    ground (
      arith,
      text_eq_iff id n,
      has_name-merge_from n seen ids,
      has_name-merge_from n (id ∷ seen) ids,
    )

-- A merged list has the non-empty names of both lists.
pub has_name-merge :
    (n : Text) (xs ys : List Text)
    → has_name n (merge_aliases xs ys) ≡ (has_name n xs || has_name n ys) && not (is_empty n)
unfolding merge_aliases has_name
has_name-merge n xs ys =
    ground (arith, has_name-merge_from n [] (xs ++ ys), has_name-append n xs ys)

erase_one :
    (auth alias k : Text) (m : Entries)
    → lookup k (if belongs auth (lookup alias m) then erase alias m else m)
      ≡ (if text_eq alias k && belongs auth (lookup k m) then none else lookup k m)
erase_one auth alias k m = ground (arith, text_eq_iff alias k, lookup-erase alias k m)

pub lookup-remove_aliases :
    (auth k : Text) (aliases : List Text) (m : Entries)
    → lookup k (remove_aliases auth aliases m)
      ≡ (if has_name k aliases && belongs auth (lookup k m) then none else lookup k m)
unfolding remove_aliases has_name
lookup-remove_aliases auth k [] m = refl
lookup-remove_aliases auth k (alias ∷ aliases) m = ground (
  arith,
  erase_one auth alias k m,
  lookup-remove_aliases auth k aliases (if belongs auth (lookup alias m) then erase alias m else m),
)

-- Removing a group takes away exactly its aliases that are still bound to its account.
pub lookup-remove_group :
    (k : Text) (m : Entries) (entry : Entry)
    → lookup k (remove_group m entry) ≡ (
        if has_name k entry.aliases && belongs entry.auth_id (lookup k m) then none else lookup k m)
unfolding remove_group
lookup-remove_group k m entry = lookup-remove_aliases entry.auth_id k entry.aliases m

pub lookup-write_all :
    (k : Text) (entry : Entry) (aliases : List Text) (m : Entries)
    → lookup k (write_all entry aliases m) ≡ (if has_name k aliases then some entry else lookup k m)
unfolding write_all has_name
lookup-write_all k entry [] m = refl
lookup-write_all k entry (alias ∷ aliases) m =
    ground (
      arith,
      lookup-insert alias k entry m,
      lookup-write_all k entry aliases (insert alias entry m),
    )

module _ (P : Text × Entry → Type 0) where
  pub All-lookup :
      (m : Entries) (k : Text) (entry : Entry) → All P m → lookup k m ≡ some entry → P (k, entry)
  unfolding lookup
  All-lookup [] k entry a h = cc
  All-lookup ((j, e) ∷ m) k entry a h = elim (Bool-cases (text_eq j k)) [
    | inl same ↦
        let here : (j, e) ≡ (k, entry) = ground (arith, text_eq_iff j k) in subst P here a.0
    | inr differ ↦ All-lookup m k entry a.1 (ground arith)
  ]

  All-erase : (m : Entries) (k : Text) → All P m → All P (erase k m)
  unfolding erase
  All-erase [] k a = tt
  All-erase ((j, e) ∷ m) k a = elim (Bool-cases (text_eq j k)) [
    | inl same ↦ rw same (All-erase m k a.1)
    | inr differ ↦ rw differ (a.0, All-erase m k a.1)
  ]

  All-insert :
      (m : Entries) (k : Text) (entry : Entry) → All P m → P (k, entry) → All P (insert k entry m)
  unfolding insert
  All-insert [] k entry a p = (p, tt)
  All-insert ((j, e) ∷ m) k entry a p = elim (Bool-cases (text_eq j k)) [
    | inl same ↦ rw same (p, a.1)
    | inr differ ↦ rw differ (a.0, All-insert m k entry a.1 p)
  ]

  All-remove_aliases :
      (auth : Text) (aliases : List Text) (m : Entries)
      → All P m
      → All P (remove_aliases auth aliases m)
  unfolding remove_aliases
  All-remove_aliases auth [] m a = a
  All-remove_aliases auth (alias ∷ aliases) m a =
      All-remove_aliases auth aliases (if belongs auth (lookup alias m) then erase alias m else m)
        (elim (Bool-cases (belongs auth (lookup alias m))) [
          | inl e ↦ rw e (All-erase m alias a)
          | inr e ↦ rw e a
        ])

  pub All-remove_group : (m : Entries) (entry : Entry) → All P m → All P (remove_group m entry)
  unfolding remove_group
  All-remove_group m entry a = All-remove_aliases entry.auth_id entry.aliases m a

  pub All-remove_groups : (m : Entries) (ps : List Entry) → All P m → All P (remove_groups m ps)
  unfolding remove_groups
  All-remove_groups m [] a = a
  All-remove_groups m (p ∷ ps) a = All-remove_groups (remove_group m p) ps (All-remove_group m p a)

  pub All-write_all :
      (entry : Entry) (aliases : List Text) (m : Entries)
      → All P m
      → All (λ k. P (k, entry)) aliases
      → All P (write_all entry aliases m)
  unfolding write_all
  All-write_all entry [] m a ps = a
  All-write_all entry (alias ∷ aliases) m a ps =
      All-write_all entry aliases (insert alias entry m) (All-insert m alias entry a ps.0) ps.1
