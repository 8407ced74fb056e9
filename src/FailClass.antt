-- ===== src/FailClass.antt =====
-- internal/failclass/class.go: the classes of upstream failures and the cooldown formula.
-- Durations are nanoseconds.
pub mod Bounds
use chatgpt_prism2api.Base.{
  ℕ, ◌+◌, ◌-◌, ◌*◌, ◌/◌, ◌^◌, ◌≡◌, refl, Bool, true, false, arith, ltb, leb, if◌then◌else◌,
}

-- The string type `Class`; `unclassified` is the source's `None`.
pub data Class : Type 0 where
  unclassified rate_limit server auth quota canceled region bad_request unavailable : Class

-- `Result`: the class, whether the credential is punished, whether another one is tried.
pub record Result : Type 0 where
  pub class : Class
  pub cool : Bool
  pub switch : Bool
  pub http_status : ℕ

abbrev pub second : ℕ
second = 1_000_000_000

abbrev pub max_short_cooldown : ℕ
max_short_cooldown = 300 * second

abbrev pub long_cooldown : ℕ
long_cooldown = 86_400 * second

unfoldable pub auto_recoverable : Class → Bool
auto_recoverable Class.rate_limit = true
auto_recoverable Class.server = true
auto_recoverable Class.unavailable = true
auto_recoverable _ = false

unfoldable pub base_duration : Class → ℕ
base_duration Class.rate_limit = 60 * second
base_duration Class.server = 120 * second
base_duration Class.unavailable = 300 * second
base_duration Class.auth = 3_600 * second
base_duration Class.quota = 86_400 * second
base_duration _ = 0

-- `uint64(float64(base/time.Second) * math.Pow(1.5, k))` for `k = triggerCount - 1`. The product is
-- exact up to `k = 33`, where it is far above the cap; what a larger one rounds or overflows to is
-- above the cap too.
unfoldable pub grown_secs : ℕ → ℕ → ℕ
grown_secs base k = base / second * 3 ^ k / 2 ^ k

-- `Duration`. A trigger count below one counts as one, so a natural number serves.
unfoldable pub duration : Class → ℕ → ℕ
unfolding base_duration auto_recoverable
duration class trigger_count =
    let count = if ltb trigger_count 1 then 1 else trigger_count in
    let base = base_duration class in
    let secs = grown_secs base (count - 1) in
    let capped =
      if ltb (max_short_cooldown / second) secs then max_short_cooldown / second else secs in
    if leb base 0 then 0 else if auto_recoverable class then capped * second else long_cooldown

-- `defaultHTTPStatus` (classify.go).
unfoldable pub default_http_status : Class → ℕ
default_http_status Class.canceled = 499
default_http_status Class.bad_request = 400
default_http_status Class.region = 400
default_http_status Class.rate_limit = 429
default_http_status Class.quota = 402
default_http_status Class.auth = 401
default_http_status Class.unavailable = 503
default_http_status Class.server = 502
default_http_status _ = 502

-- `result` (classify.go).
unfoldable pub result : Class → Bool → Bool → ℕ → Result
unfolding default_http_status
result class cool switch status = record {
  class = class;
  cool = cool;
  switch = switch;
  http_status = if leb status 0 then default_http_status class else status;
}
