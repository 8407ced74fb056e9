-- ===== src/Scheduler/Config.antt =====
-- internal/scheduler/config.go. Durations are integers of nanoseconds, as in Go.
use chatgpt_prism2api.Base.{ℕ, ◌*◌, ◌≡◌, refl, Bool, true, false, arith, if◌then◌else◌}
use chatgpt_prism2api.Base.Int.{ℤ, pos, ltb_ℤ}
use chatgpt_prism2api.Base.Text.{Text}
use chatgpt_prism2api.FailClass.{second}

-- `Strategy`; `other` is any string that names none of the three.
pub data Strategy : Type 0 where
  round_robin weighted fill_first : Strategy
  other : Text → Strategy

pub record Config : Type 0 where
  pub strategy : Strategy
  pub session_affinity : Bool
  pub session_affinity_ttl : ℤ
  pub request_retry : ℤ
  pub max_retry_credentials : ℤ
  pub max_retry_interval : ℤ
  pub disable_cooling : Bool
  pub warm_preference : Bool

abbrev pub hour : ℕ
hour = 3_600 * second

unfoldable pub default_config : Config
default_config = record {
  strategy = Strategy.round_robin;
  session_affinity = true;
  session_affinity_ttl = pos hour;
  request_retry = pos 3;
  max_retry_credentials = pos 0;
  max_retry_interval = pos (30 * second);
  disable_cooling = false;
  warm_preference = false;
}

abbrev known : Strategy → Strategy
known (Strategy.other s) = Strategy.round_robin
known s = s

abbrev at_least_zero : ℤ → ℤ
at_least_zero n = if ltb_ℤ n (pos 0) then pos 0 else n

-- `normalized`.
unfoldable pub normalized : Config → Config
normalized c = record c {
  strategy = known c.strategy;
  session_affinity_ttl =
      if ltb_ℤ (pos 0) c.session_affinity_ttl then c.session_affinity_ttl else pos hour;
  request_retry = at_least_zero c.request_retry;
  max_retry_credentials = at_least_zero c.max_retry_credentials;
  max_retry_interval = at_least_zero c.max_retry_interval;
}

-- `CredentialLimit`: how many accounts one request may try, 0 for all.
unfoldable pub credential_limit : Config → ℤ
credential_limit c =
    if ltb_ℤ (pos 0) c.max_retry_credentials then c.max_retry_credentials else pos 0

-- Normalising twice is normalising once, and it leaves the default configuration as it is.
pub normalized_idem :
    (c : Config)
    → (normalized (normalized c) ≡ normalized c) × (normalized default_config ≡ default_config)
unfolding normalized default_config
normalized_idem c = (ground arith, refl)
