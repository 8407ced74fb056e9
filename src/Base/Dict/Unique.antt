-- ===== src/Base/Dict/Unique.antt =====
-- Maps with each key once: what stands in such a list is what a lookup finds.
use chatgpt_prism2api.Base.{◌≡◌, refl, none, List, [], ◌∷◌, arith}
use chatgpt_prism2api.Base.Dict.{Eq, lookup, insert, erase, lookup-insert, lookup-erase}

module _ {ℓ κ} {K : Type ℓ} {V : Type κ} ⦃e : Eq K⦄ where
  abbrev pub IsUnique : List (K × V) → Type κ
  IsUnique [] = Unit
  IsUnique ((k, v) ∷ m) = (lookup k m ≡ none) × IsUnique m

  pub insert-IsUnique : (k : K) (v : V) (m : List (K × V)) → IsUnique m → IsUnique (insert k v m)
  unfolding insert lookup
  insert-IsUnique k v [] u = (refl, tt)
  insert-IsUnique k v ((j, w) ∷ m) u =
      ground (arith, e.beq_iff j k, e.beq_iff k j, lookup-insert k j v m, insert-IsUnique k v m u.1)

  pub erase-IsUnique : (k : K) (m : List (K × V)) → IsUnique m → IsUnique (erase k m)
  unfolding erase
  erase-IsUnique k [] u = tt
  erase-IsUnique k ((j, w) ∷ m) u = ground (arith, lookup-erase k j m, erase-IsUnique k m u.1)
