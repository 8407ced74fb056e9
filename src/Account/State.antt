-- ===== src/Account/State.antt =====
-- internal/pool/account.go: the state of one upstream account and its operations.
-- A method that takes the mutex and changes fields is a function from the state and its arguments to
-- the new state. Times are nanoseconds since the zero time of Go, so 0 is `time.Time{}`; the clock is
-- an argument. Counters are unbounded.
use chatgpt_prism2api.Base.{ℕ, ◌*◌, Bool, true, false, Option, none, List, [], if◌then◌else◌}
use chatgpt_prism2api.Base.Int.{ℤ, pos, ltb_ℤ}
use chatgpt_prism2api.Base.Text.{Text}
use chatgpt_prism2api.Base.Dict.{text_key}
use chatgpt_prism2api.FailClass.{Class, second}
use chatgpt_prism2api.GroupNames.{clean_group_names, rename_in}

-- The part of `auth.TokenManager` that the pool reads: `m.token`, or none.
pub record Token : Type 0 where
  pub access_token : Text
  pub refresh_token : Text
  pub api_key : Text

pub record ModelState : Type 0 where
  pub cooldown_until : ℕ
  pub reason : Class
  pub trigger_count : ℕ

-- `Tokens` is none for a nil manager, and `some none` for a manager with no token.
-- `concurrency` is what `concurrencyFn` returns at present, if one is set.
-- `daily_day` is the UTC day that `dailyDay` names, and none for the empty string.
pub record Account : Type 0 where
  pub name : Text
  pub id : Text
  pub tokens : Option (Option Token)
  pub enabled : Bool
  pub disable_reason : Text
  pub priority : ℤ
  pub weight : ℤ
  pub groups : List Text
  pub rpm : ℤ
  pub daily_max : ℤ
  pub fail_count : ℕ
  pub fail_class : Class
  pub cooldown_until : ℕ
  pub cooldown_reason : Class
  pub trigger_count : ℕ
  pub model_states : List (Text × ModelState)
  pub last_used_at : ℕ
  pub success_count : ℕ
  pub use_times : List ℕ
  pub daily_count : ℕ
  pub daily_day : Option ℕ
  pub limit_fn : Option (List Text → ℤ × ℤ)
  pub inflight : ℕ
  pub max_concurrent : ℤ
  pub degraded : Bool
  pub concurrency : Option (ℤ × ℤ)
  pub sandbox_warm : Bool

abbrev pub minute : ℕ
minute = 60 * second

-- `newAccount`; the identifier is the drawn UUID.
unfoldable pub new_account : Text → Text → Account
new_account name uuid = record {
  name = name;
  id = uuid;
  tokens = none;
  enabled = true;
  disable_reason = [];
  priority = pos 0;
  weight = pos 1;
  groups = [];
  rpm = pos 0;
  daily_max = pos 0;
  fail_count = 0;
  fail_class = Class.unclassified;
  cooldown_until = 0;
  cooldown_reason = Class.unclassified;
  trigger_count = 0;
  model_states = [];
  last_used_at = 0;
  success_count = 0;
  use_times = [];
  daily_count = 0;
  daily_day = none;
  limit_fn = none;
  inflight = 0;
  max_concurrent = pos 0;
  degraded = false;
  concurrency = none;
  sandbox_warm = false;
}

-- `Weight`: a stored weight of zero or less counts as one.
unfoldable pub effective_weight : Account → ℤ
effective_weight a = if ltb_ℤ (pos 0) a.weight then a.weight else pos 1

unfoldable pub set_weight : Account → ℤ → Account
set_weight a w = record a { weight = if ltb_ℤ (pos 0) w then w else pos 1 }

-- `if n < 0 { n = 0 }`.
abbrev pub clamp_negative : ℤ → ℤ
clamp_negative n = if ltb_ℤ n (pos 0) then pos 0 else n

unfoldable pub set_rpm : Account → ℤ → Account
set_rpm a n = record a { rpm = clamp_negative n }

unfoldable pub set_daily_max : Account → ℤ → Account
set_daily_max a n = record a { daily_max = clamp_negative n }

unfoldable pub set_groups : Account → List Text → Account
set_groups a names = record a { groups = clean_group_names names }

unfoldable pub rename_group : Account → Text → Text → Account
rename_group a old new = record a { groups = rename_in old new a.groups }

-- `copyMetaFrom`: what an account that is set up again takes over from the one that it replaces.
unfoldable pub copy_meta_from : Account → Account → Account
copy_meta_from a src = record a {
  id = src.id;
  enabled = src.enabled;
  disable_reason = src.disable_reason;
  priority = src.priority;
  weight = src.weight;
  groups = src.groups;
  rpm = src.rpm;
  daily_max = src.daily_max;
}
