-- ===== src/Examples/Names.antt =====
-- Runs on lists of group names and on configurations.
use chatgpt_prism2api.Base.{◌≡◌, ◌≢◌, refl, [], ◌∷◌, arith}
use chatgpt_prism2api.Base.Text.{codes, text_eq, text_eq_iff, trim_space}
use chatgpt_prism2api.GroupNames.{has_name, clean_group_names, rename_in}

a_differs_from_b : trim_space (codes "a") ≢ trim_space (codes "b ")
unfolding trim_space text_eq
a_differs_from_b = ground (arith, text_eq_iff (codes "a") (codes "b"))

clean_test :
    clean_group_names (codes " a" ∷ codes "b" ∷ codes "a " ∷ codes " " ∷ [])
    ≡ codes "a" ∷ codes "b" ∷ []
unfolding clean_group_names has_name trim_space text_eq
clean_test = refl

rename_test :
    rename_in (codes "a") (codes "b ") (codes "a" ∷ codes "c" ∷ codes "a" ∷ [])
    ≡ codes "b" ∷ codes "c" ∷ []
unfolding rename_in trim_space text_eq
rename_test = refl
