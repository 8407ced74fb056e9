-- ===== src/Examples.antt =====
-- Runs of the modelled operations and of their theorems on small concrete data.
-- Accounts stand for those of internal/pool; a token expires after the time 100 in every example.
mod Accounts
mod Failures
mod Sessions
mod Picks
mod Tiers
mod Names
mod Keys
mod Registry
mod Jobs
mod Pools
mod Requests
mod Egress
use chatgpt_prism2api.Base.{ℕ, Bool, Option, none, some, List, [], ◌∷◌, ltb}
use chatgpt_prism2api.Base.Int.{pos}
use chatgpt_prism2api.Base.Text.{Text, codes}
use chatgpt_prism2api.Account.State.{Account, Token, new_account}

abbrev pub is_late : ℕ → Text → Bool
is_late now t = ltb 100 now

abbrev pub a_token : Token
a_token = record { access_token = codes "t"; refresh_token = codes "r"; api_key = [] }

-- An account with a token, two uses a minute, three a day, two slots and one when degraded.
abbrev pub ann : Account
ann = record (new_account (codes "ann") (codes "A")) {
  tokens = some (some a_token);
  priority = pos 2;
  rpm = pos 2;
  daily_max = pos 3;
  concurrency = some (pos 2, pos 1);
}

abbrev pub bob : Account
bob = record (new_account (codes "bob") (codes "B")) {
  tokens = some (some a_token);
  priority = pos 1;
  groups = codes "g" ∷ [];
}
