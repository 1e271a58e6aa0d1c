-- ===== src/Webhook/Outbox/History.antt =====
-- The outboxes that failed Emits and ticks of pkg/messaging/webhook/outbox.go can lead to.
use robotdreams.Base.{ℕ, ◌≤◌, Text, arith}
use robotdreams.Messaging.{Envelope}
use robotdreams.Webhook.Outbox.{Outbox, RetryPolicy, Delivery, new_outbox, enqueue_failed, tick}
use robotdreams.Webhook.Outbox.Attempts.{IsSound, tick-IsSound, enqueue_failed-IsSound}

-- An envelope is taken up after at most as many attempts as the policy allows.
pub data OutboxStep : Outbox → Outbox → Type 0 where
  failed :
      {o : Outbox}
      → (now : ℕ) (env : Envelope) (attempts : ℕ) (e : Text) → attempts ≤ o.policy.max_attempts
      → OutboxStep o (enqueue_failed o now env attempts e)
  ticked :
      {o : Outbox} → (now : ℕ) (deliver : Envelope → Delivery) → OutboxStep o (tick o now deliver).0

pub data OutboxReachable (p : RetryPolicy) : Outbox → Type 0 where
  fresh : OutboxReachable p (new_outbox p)
  next : {o o' : Outbox} → OutboxReachable p o → OutboxStep o o' → OutboxReachable p o'

OutboxStep-IsSound : {o o' : Outbox} → OutboxStep o o' → IsSound o → IsSound o'
OutboxStep-IsSound {o = o} (failed now env attempts e h) s =
    enqueue_failed-IsSound o now env attempts e s h
OutboxStep-IsSound {o = o} (ticked now deliver) s = tick-IsSound o now deliver s

-- After any failed Emits and ticks on a new outbox, in whatever order and whatever the POSTs come
-- to, each item was attempted at most as often as the policy allows, just as often if it failed and
-- less if it is pending, none is both delivered and failed, and at most a thousand finished ids are
-- listed. An envelope is taken up after at most as many attempts as the policy allows.
pub OutboxReachable-IsSound : {p : RetryPolicy} {o : Outbox} → OutboxReachable p o → IsSound o
OutboxReachable-IsSound fresh = record { tracked = tt; retained = omega arith }
OutboxReachable-IsSound (next r s) = OutboxStep-IsSound s (OutboxReachable-IsSound r)
