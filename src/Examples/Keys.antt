-- ===== src/Examples/Keys.antt =====
-- Runs of the store of client keys; credits are numbers.
use chatgpt_prism2api.Base.{ℕ, ◌+◌, ◌≡◌, refl, false, none, some, [], ◌∷◌, arith, ltb}
use chatgpt_prism2api.Base.Text.{text_eq, text_eq_iff, text_eq_refl, codes}
use chatgpt_prism2api.Base.Dict.{lookup, nat_eq, text_key}
use chatgpt_prism2api.ClientKeys.{Key, Store, create_with_key, ensure_system_key, fresh_key}
use chatgpt_prism2api.ClientKeys.Usage.{rotate, verify_and_touch, Used}
use chatgpt_prism2api.ClientKeys.Index.{Consistent}
use chatgpt_prism2api.ClientKeys.Methods.{Holds, create_with_key_lem, rotate_lem}
use chatgpt_prism2api.ClientKeys.SystemKey.{IsEnsured, ensure_system_key_lem}
use chatgpt_prism2api.ClientKeys.Verify.{answer, indexed, verify_and_touch_lem}

-- One key `k` of the group `g`, at the identifier 1.
abbrev k_key : Key ℕ
k_key = fresh_key 0 1 (codes "k") (codes "n") [] (codes "g") false (codes "now")

abbrev one : Store ℕ
one = record {
  entries = (1, k_key) ∷ [];
  by_key = (codes "k", 1) ∷ [];
  next_id = 2;
  usage_dirty = 99;
  saved = [];
}

one-Consistent : Consistent one
unfolding lookup text_eq
one-Consistent = record {
  positive = omega arith;
  unique = (refl, tt);
  forward = λ j f h. ground (arith, text_eq_refl (codes "k"));
  backward = λ k j h. ground (arith, text_eq_iff (codes "k") k);
}

create_with_key_lem_example :
    Consistent (create_with_key one 0 (codes "m") [] [] (codes "k2") (codes "now")).0
    × Holds
        (create_with_key one 0 (codes "m") [] [] (codes "k2") (codes "now")).0
        (codes "k2")
        (create_with_key one 0 (codes "m") [] [] (codes "k2") (codes "now")).1
create_with_key_lem_example =
    create_with_key_lem one 0 (codes "m") [] [] (codes "k2") (codes "now") one-Consistent
      (omega arith)

rotate_lem_example :
    Consistent (rotate one 1 (codes "k9")).0
    × ((rotate one 1 (codes "k9")).1 ≡ some (record k_key { key = codes "k9" }))
    × Holds (rotate one 1 (codes "k9")).0 (codes "k9") (rotate one 1 (codes "k9")).1
    × (lookup k_key.key (rotate one 1 (codes "k9")).0.by_key ≡ none)
unfolding lookup text_eq
rotate_lem_example = rotate_lem one 1 k_key (codes "k9") one-Consistent refl refl

-- The key of the example becomes the system key at the identifier 0.
ensure_system_key_lem_example :
    IsEnsured (codes "k") (ensure_system_key one 0 (codes "sys") [] (codes "k") (codes "now"))
ensure_system_key_lem_example =
    ensure_system_key_lem one 0 (codes "sys") [] (codes "k") (codes "now") one-Consistent
      (omega arith) refl

verify_and_touch_lem_example :
    Consistent (verify_and_touch one (codes "k") (codes "then")).0
    × ((verify_and_touch one (codes "k") (codes "then")).1
        ≡ answer (codes "then") (indexed one (codes "k")))
verify_and_touch_lem_example = verify_and_touch_lem one (codes "k") (codes "then") one-Consistent

abbrev few : Used ℕ
few = record {
  input = 3;
  output = 5;
  cache_create = 0;
  cache_read = 0;
  credits = 2;
  plus = λ a b. a + b;
  is_positive = λ a. ltb 0 a;
}
