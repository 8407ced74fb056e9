-- ===== src/Examples/Requests.antt =====
-- Runs of the requests that ask for an account, and of the gate before them.
use chatgpt_prism2api.Base.{
  true, List, length, All, inl, ◌+◌, ◌*◌, ◌/◌, ◌<◌, ◌≤◌, ◌≡◌, ◌≢◌, refl, false, none, some, [], ◌∷◌,
  arith,
}
use chatgpt_prism2api.Base.Text.{codes}
use chatgpt_prism2api.Base.Dict.{lookup, nat_eq}
use chatgpt_prism2api.FailClass.{second}
use chatgpt_prism2api.Scheduler.Config.{default_config, credential_limit}
use chatgpt_prism2api.Scheduler.Pick.{new_scheduler}
use chatgpt_prism2api.Scheduler.Session.{extract_session_ids}
use chatgpt_prism2api.Scheduler.Session.Identifiers.{IsSession, extract_session_ids_lem}
use chatgpt_prism2api.Api.Iter.{
  Iter, World, PickAnswer, next_loop, jittered_cooldown_wait, wait_jitter_cap,
}
use chatgpt_prism2api.Api.Iter.Ends.{waits_left, next_loop_ends}
use chatgpt_prism2api.Api.Iter.Tries.{IsThrifty, next_loop-IsThrifty}
use chatgpt_prism2api.Api.Iter.Waits.{jittered_cooldown_wait_bounds}
use chatgpt_prism2api.Api.Gate.{Gate, refresh_gate, leave}
use chatgpt_prism2api.Api.Gate.Holders.{GateCall, comes, ends, run_gate, IsCounted, run_gate_lem}
use chatgpt_prism2api.Api.Gate.Resize.{resize_strands, gives_back}
use chatgpt_prism2api.Examples.{is_late, ann, bob}

abbrev asks : Iter
asks = record {
  model = codes "m";
  session_ids = ([], []);
  tried = [];
  outer = 0;
  group = [];
  fallback_affinity = [];
}

abbrev calm : World
calm = record {
  accounts = λ t. ann ∷ bob ∷ [];
  now = λ t. 10 + t;
  at_acquire = λ t a. a;
  context_ends = λ t. false;
}

next_loop_ends_example :
    (next_loop is_late calm default_config 9 0 asks (new_scheduler default_config)).2
    ≢ PickAnswer.out_of_fuel
unfolding waits_left default_config
next_loop_ends_example =
    next_loop_ends is_late calm default_config (λ t a f. f) 9 0 asks (new_scheduler default_config)
      (omega arith)

next_loop-IsThrifty_example :
    IsThrifty default_config
      (next_loop is_late calm default_config 9 0 asks (new_scheduler default_config)).0
unfolding default_config credential_limit
next_loop-IsThrifty_example =
    next_loop-IsThrifty is_late calm default_config 9 0 asks (new_scheduler default_config)
      record { distinct = tt; few = inl refl }

jittered_cooldown_wait_bounds_example :
    let sleep = jittered_cooldown_wait (λ n. 0) (8 * second) (9 * second) in
    (8 * second ≤ sleep)
    × (sleep ≤ 8 * second + 8 * second / 4)
    × (sleep ≤ 8 * second + wait_jitter_cap)
    × (8 * second ≤ 9 * second → 0 < 9 * second → sleep ≤ 9 * second)
jittered_cooldown_wait_bounds_example =
    jittered_cooldown_wait_bounds (λ n. 0) (λ n l. l) (8 * second) (9 * second)

-- A gate of two slots, one of them taken.
abbrev two_slots : Gate
two_slots = record {
  chans = (0, record { cap = 2; used = 1 }) ∷ [];
  fresh = 1;
  current = some 0;
  checked_at = 0;
}

no_gate : Gate
no_gate = record { chans = []; fresh = 0; current = none; checked_at = 0 }

-- Three requests come to two slots, the first one ends, and another one comes.
abbrev gate_calls : List GateCall
gate_calls = comes 5 ∷ comes 6 ∷ comes 7 ∷ ends 1 ∷ comes 8 ∷ []

run_gate_lem_example :
    let (z, rest) = run_gate 2 gate_calls no_gate [] in
    (length rest ≤ 2) × All (λ h. gives_back (leave z h) ≡ true) rest × IsCounted 2 z rest
unfolding no_gate
run_gate_lem_example = run_gate_lem 2 gate_calls no_gate [] (omega arith) (inl (refl, refl))

resize_strands_example :
    let r = refresh_gate two_slots (31 * second) 3 in
    (r.current ≡ some 1)
    × (lookup 1 r.chans ≡ some (record { cap = 3; used = 1 }))
    × (lookup 0 r.chans ≡ some (record { cap = 2; used = 0 }))
    × (gives_back (leave r 0) ≡ false)
unfolding lookup
resize_strands_example =
    resize_strands two_slots (31 * second) 3 0 (record { cap = 2; used = 1 }) refl refl refl
      (omega arith) (omega arith) refl

extract_session_ids_lem_example : IsSession (
    extract_session_ids
      (λ n. n)
      (λ a b. false)
      (λ t. none)
      (λ t. none)
      (λ t. none)
      ((codes "Session-Id", codes "s1" ∷ []) ∷ [])
      none)
extract_session_ids_lem_example =
    extract_session_ids_lem (λ n. n) (λ a b. false) (λ t. none) (λ t. none) (λ t. none)
      ((codes "Session-Id", codes "s1" ∷ []) ∷ []) none
