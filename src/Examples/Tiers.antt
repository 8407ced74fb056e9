-- ===== src/Examples/Tiers.antt =====
-- Runs of the tier of highest priority and of round robin.
use chatgpt_prism2api.Base.{ℕ, ◌≡◌, ◌<◌, List, [], ◌∷◌, arith, length, get_elem?}
use chatgpt_prism2api.Base.Text.{Text, codes, text_eq}
use chatgpt_prism2api.Base.Dict.{lookup}
use chatgpt_prism2api.Scheduler.Select.{cursor, round_robin_pick}
use chatgpt_prism2api.Scheduler.Select.RoundRobin.{after, round_robin_lap}
use chatgpt_prism2api.Examples.{ann, bob}

abbrev cursors : List (Text × ℕ)
cursors = (codes "k", 7) ∷ []

-- From the cursor 7 over three candidates, the one at position 0 has two picks before it.
round_robin_lap_example :
    (k : ℕ) × (k < length (bob ∷ ann ∷ bob ∷ []))
    × ((round_robin_pick
          (after k cursors (codes "k") (bob ∷ ann ∷ bob ∷ []))
          (codes "k")
          (bob ∷ ann ∷ bob ∷ [])).1
        ≡ get_elem? (bob ∷ ann ∷ bob ∷ []) 0)
unfolding cursor text_eq lookup
round_robin_lap_example =
    round_robin_lap cursors (codes "k") bob (ann ∷ bob ∷ []) 0 (omega arith) (omega arith)
