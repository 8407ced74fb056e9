-- ===== src/Examples/Pools.antt =====
-- Runs of the account pool.
use chatgpt_prism2api.Base.{
  ℕ, ◌≡◌, refl, true, false, Option, none, some, List, [], ◌∷◌, arith, ◌==◌,
}
use chatgpt_prism2api.Base.Int.{pos}
use chatgpt_prism2api.Base.Text.{Text, codes, text_eq, has_prefix}
use chatgpt_prism2api.Base.Dict.{lookup, text_key, nat_eq}
use chatgpt_prism2api.GroupNames.{has_name}
use chatgpt_prism2api.Account.State.{new_account}
use chatgpt_prism2api.Pool.Secret.{seal, open_sealed, open_sealed-seal}
use chatgpt_prism2api.Pool.Member.{Member, AdminPatch, new_member}
use chatgpt_prism2api.Pool.Document.{Nonces, marshal_persisted, load_member, settle_quota}
use chatgpt_prism2api.Pool.Document.RoundTrip.{survivor, load_member-marshal_persisted}
use chatgpt_prism2api.Pool.Names.{valid_name}
use chatgpt_prism2api.Pool.State.{State, PoolOutcome, update}
use chatgpt_prism2api.Pool.Calls.{add_api_key, remove, flush}
use chatgpt_prism2api.Pool.Calls.Sound.{IsSound}
use chatgpt_prism2api.Pool.Calls.Invariant.{PoolCall, run_calls, run_calls-IsSound}
use chatgpt_prism2api.Pool.Calls.Durable.{
  all_good, flush_saves, late_mark_revives, stale_mark_overwrites,
}
use chatgpt_prism2api.Examples.{is_late, a_token}

-- A cipher that writes the nonce in front of the plain text.
abbrev cipher : Text → ℕ → Text → Text
cipher key nonce plain = nonce ∷ plain

abbrev decipher : Text → Text → Option Text
decipher key [] = none
decipher key (nonce ∷ plain) = some plain

abbrev key32 : Text
key32 = codes "0123456789abcdef0123456789abcdef"

open_sealed-seal_example :
    open_sealed decipher key32 (seal cipher key32 (some 7) (codes "secret")) ≡ codes "secret"
unfolding has_prefix
open_sealed-seal_example =
    open_sealed-seal cipher decipher (λ k n p. refl) key32 (some 7) (codes "secret") refl

abbrev drawn : Nonces
drawn = record { access = some 1; refresh = some 2; key = some 3 }

-- Numbers stand for the percentages.
abbrev eve : Member ℕ
eve = record (new_member (codes "eve") (codes "E") []) {
  account = record (new_account (codes "eve") (codes "E")) {
    tokens = some (some a_token);
    priority = pos 4;
  };
}

load_member-marshal_persisted_example :
    load_member
      (λ p. p == 100)
      (λ u l. u == l)
      decipher
      key32
      (codes "eve")
      (marshal_persisted cipher key32 eve drawn)
      (codes "F")
    ≡ some (settle_quota (λ p. p == 100) (λ u l. u == l) (survivor eve a_token))
unfolding has_prefix new_member new_account
load_member-marshal_persisted_example =
    load_member-marshal_persisted cipher decipher key32 (λ k n p. refl) (λ p. p == 100)
      (λ u l. u == l) eve a_token drawn (codes "F") refl refl refl refl refl refl refl refl

abbrev empty_pool : State ℕ
empty_pool = record {
  heap = [];
  fresh = 0;
  accounts = [];
  rr = 0;
  dirty = [];
  docs = [];
  concurrency = none;
}

empty_pool-IsSound : IsSound empty_pool
unfolding lookup
empty_pool-IsSound = record {
  distinct = tt;
  known = tt;
  once = tt;
  waiting = tt;
  below = λ h l. refl;
}

abbrev retired : AdminPatch
retired = record {
  priority = none;
  weight = none;
  enabled = some false;
  proxy_url = none;
  proxy_id = none;
  rpm = none;
  daily_max = none;
  groups = none;
}

-- A key is added under a name and the account switched off, which waits to be saved.
abbrev busy_calls : List PoolCall
busy_calls =
    PoolCall.adds_key (codes "eve") (codes "k1") (codes "E") drawn true
    ∷ PoolCall.patches 0 retired
    ∷ []

abbrev busy_pool : State ℕ
busy_pool = run_calls cipher key32 is_late empty_pool busy_calls

run_calls-IsSound_example : IsSound (run_calls cipher key32 is_late empty_pool busy_calls)
run_calls-IsSound_example =
    run_calls-IsSound cipher key32 is_late empty_pool busy_calls empty_pool-IsSound

-- A pool with one account, which waits to be saved.
abbrev one_pool : State ℕ
one_pool = record {
  heap = (0, eve) ∷ [];
  fresh = 1;
  accounts = 0 ∷ [];
  rr = 0;
  dirty = (codes "eve", 0) ∷ [];
  docs = [];
  concurrency = none;
}

one_pool-IsSound : IsSound one_pool
unfolding lookup new_member new_account has_name
one_pool-IsSound = record {
  distinct = (refl, tt);
  known = (((codes "eve", refl), omega arith), tt);
  once = (refl, tt);
  waiting = ((refl, omega arith), tt);
  below = λ h l. ground arith;
}

abbrev nonces : ℕ → Nonces
nonces h = drawn

flush_saves_example :
    lookup (codes "eve") (flush cipher key32 one_pool nonces all_good).docs
    ≡ some (marshal_persisted cipher key32 eve drawn)
unfolding lookup text_eq
flush_saves_example =
    flush_saves cipher key32 one_pool nonces (codes "eve") 0 eve one_pool-IsSound refl refl

late_mark_revives_example :
    let removed = (remove one_pool (codes "eve") true).0 in
    (lookup (codes "eve") removed.docs ≡ none)
    × (lookup (codes "eve") (flush cipher key32 (update removed 0 (λ m. m)) nonces all_good).docs
        ≡ some (marshal_persisted cipher key32 eve drawn))
unfolding lookup new_member new_account
late_mark_revives_example =
    late_mark_revives cipher key32 one_pool nonces (codes "eve") 0 eve (λ m. m) one_pool-IsSound
      refl refl (λ m. refl)

stale_mark_overwrites_example :
    let (z, answer) =
      add_api_key cipher key32 one_pool (codes "eve") (codes "k2") (codes "F") drawn true in
    (answer ≡ PoolOutcome.done)
    × (lookup (codes "eve") (flush cipher key32 z nonces all_good).docs
        ≡ some (marshal_persisted cipher key32 eve drawn))
unfolding lookup text_eq valid_name
stale_mark_overwrites_example =
    stale_mark_overwrites cipher key32 one_pool nonces (codes "eve") (codes "k2") (codes "F") drawn
      0 eve one_pool-IsSound refl refl refl
