-- ===== src/FailClass/Bounds.antt =====
-- The cooldown formula is bounded and grows with the trigger count.
use native.Mathlib.Nat.{pow-suc, mul_assoc, div-mul-le_self, le-div_iff_mul-le}
use chatgpt_prism2api.Base.{ℕ, zero, suc, ◌-◌, ◌*◌, ◌/◌, ◌^◌, ◌≤◌, ◌<◌, ◌≡◌, true, false, arith}
use chatgpt_prism2api.FailClass.{
  Class, second, max_short_cooldown, long_cooldown, base_duration, auto_recoverable, grown_secs,
  duration,
}

div-step : (x y : ℕ) → 0 < y → x / y ≤ x * 3 / (y * 2)
div-step x y h = (le-div_iff_mul-le (omega arith)).1 (regrouped (x / y) (div-mul-le_self x y))
  where
    regrouped : (q : ℕ) → q * y ≤ x → q * (y * 2) ≤ x * 3
    regrouped q le = omega arith

pow-pos : (k : ℕ) → 0 < 2 ^ k
pow-pos zero = omega arith
pow-pos (suc k) = rw pow-suc (omega (arith, pow-pos k))

grown_secs_mono : (base k : ℕ) → grown_secs base k ≤ grown_secs base (suc k)
unfolding grown_secs
grown_secs_mono base k =
    rw (pow-suc 3 k, pow-suc 2 k, ← mul_assoc)
      (div-step (base / second * 3 ^ k) (2 ^ k) (pow-pos k))

-- A class that recovers by itself waits at most five minutes and any other exactly a day, unless it
-- has no base; and one more trigger never shortens the wait.
pub duration_bounds :
    (class : Class) (n : ℕ)
    → (auto_recoverable class ≡ true → duration class n ≤ max_short_cooldown)
      × (auto_recoverable class ≡ false
          → 0 < base_duration class
          → duration class n ≡ long_cooldown)
unfolding duration
duration_bounds class n = (λ h. ground arith, λ h p. ground arith)

pub duration_mono : (class : Class) (n : ℕ) → duration class n ≤ duration class (suc n)
unfolding duration
duration_mono class zero = ground arith
duration_mono class (suc m) = ground (
  arith,
  grown_secs_mono (base_duration class) m,
  (let e : suc m - 1 ≡ m = omega arith in e),
  (let e : suc (suc m) - 1 ≡ suc m = omega arith in e),
)
