-- ===== src/Webhook/Outbox/Backoff.antt =====
-- The delays between attempts.
use Prim.Native.Nat.{◌^◌}
use robotdreams.Base.{ℕ, zero, suc, ◌*◌, ◌≤◌, ◌≡◌, refl, arith, ltb, false, if◌then◌else◌}
use robotdreams.Webhook.Outbox.{RetryPolicy, default_retry_policy, second, delay_for}

-- No delay passes the policy's maximum, whatever the multiplier does.
pub delay_for-le-max_delay : (p : RetryPolicy) (attempt : ℕ) → delay_for p attempt ≤ p.max_delay
unfolding delay_for
delay_for-le-max_delay p attempt = ground arith

-- Under the default policy the delay doubles from one second with each attempt, and is thirty
-- seconds from the sixth on.
pub default_delays :
    (n : ℕ)
    → delay_for default_retry_policy (suc n) ≡ (if ltb n 5 then 2 ^ n * second else 30 * second)
unfolding delay_for
default_delays zero = refl
default_delays (suc zero) = refl
default_delays (suc (suc zero)) = refl
default_delays (suc (suc (suc zero))) = refl
default_delays (suc (suc (suc (suc zero)))) = refl
default_delays (suc (suc (suc (suc (suc n))))) =
    let late : ltb (suc (suc (suc (suc (suc n))))) 5 ≡ false = ground arith in rw late
