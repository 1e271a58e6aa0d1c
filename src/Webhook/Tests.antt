-- ===== src/Webhook/Tests.antt =====
-- The theorems of this part at three messages and an outbox that holds one of them.
use robotdreams.Base.{
  if◌then◌else◌, ℕ, ◌⊎◌, Option, ok, ◌≡◌, refl, Text, codes, eqb, lookup, insert, arith, [], ◌∷◌,
  some, none, last_n, reverse, keep, take, ◌*◌,
}
use robotdreams.Messaging.{Envelope, TailFilter, Ack, status_update}
use robotdreams.Webhook.Backend.{Backend, new_backend, emit, ack, timed}
use robotdreams.Webhook.Backend.Custody.{emit_delivers_or_retries, Posted, Undelivered}
use robotdreams.Webhook.Ring.{RingStore, new_ring_store, of_worker, source, tail}
use robotdreams.Webhook.Ring.Tail.{tail-eq-take-keep, fresh}
use robotdreams.Webhook.Ring.History.{add_all, addressed, history}
use robotdreams.Webhook.Outbox.{
  Outbox, OutboxItem, Delivery, default_retry_policy, new_outbox, enqueue_failed, failed_item,
  store_item, tick, delay_for, attempted, second,
}
use robotdreams.Webhook.Outbox.History.{
  failed, ticked, OutboxReachable, next, OutboxReachable-IsSound,
}
use robotdreams.Webhook.Outbox.Attempts.{IsSound}
use robotdreams.Webhook.Outbox.Retention.{lookup-tick}

abbrev message : Text → Text → ℕ → Envelope
message id to at = record {
  id = id;
  type = status_update;
  from = codes "lead";
  to = to;
  subject = codes "hello";
  body = [];
  storage_ptr = none;
  created_at = at;
  causation_id = [];
}

abbrev first : Envelope
first = message (codes "m1") (codes "eng") 1

abbrev second_one : Envelope
second_one = message (codes "m2") (codes "qa") 2

abbrev third : Envelope
third = message (codes "m3") (codes "eng") 3

abbrev ring : RingStore
ring = new_ring_store 1

abbrev recent : TailFilter
recent = record { worker_id = codes "eng"; limit = 1; since = 2 }

history_example :
    of_worker (add_all ring (first ∷ second_one ∷ third ∷ [])) (codes "eng")
    ≡ last_n 1 (addressed (codes "eng") (first ∷ second_one ∷ third ∷ []))
unfolding new_ring_store lookup
history_example = history (first ∷ second_one ∷ third ∷ []) ring (codes "eng") (omega arith)

tail-eq-take-keep_example :
    tail (add_all ring (first ∷ third ∷ [])) recent
    ≡ take 1
        (keep (fresh recent) (reverse (source (add_all ring (first ∷ third ∷ [])) (codes "eng"))))
tail-eq-take-keep_example = tail-eq-take-keep (add_all ring (first ∷ third ∷ [])) recent

abbrev outbox : Outbox
outbox = new_outbox default_retry_policy

outbox-IsSound : IsSound outbox
outbox-IsSound = record { tracked = tt; retained = omega arith }

abbrev waiting : Outbox
waiting = enqueue_failed outbox 10 first 1 (codes "refused")

abbrev refused : Envelope → Delivery
refused env = record { error = some (codes "refused"); at = 20 }

abbrev accepted : Envelope → Delivery
accepted env = record { error = none; at = 20 }

abbrev item : OutboxItem
item = failed_item default_retry_policy 10 first 1 (codes "refused")

lookup-tick_example :
    lookup (codes "m1") (tick waiting (2 * second) refused).0.items_by_id
    ≡ some (attempted default_retry_policy item (refused first))
unfolding enqueue_failed store_item failed_item attempted delay_for lookup insert eqb
lookup-tick_example =
    lookup-tick refused waiting (2 * second) (codes "m1") item (refl, tt) (refl, tt) refl refl refl

abbrev backend : Backend
backend = new_backend default_retry_policy

abbrev callbacks : Text → Option Text
callbacks k = some (codes "http://eng")

-- The callback takes nothing but `first`.
abbrev post : Text → Envelope → Option Text
post url env = if eqb env.id (codes "m1") then none else some (codes "refused")

abbrev receipt : Ack
receipt = record { message_id = codes "m1"; by_worker = codes "eng"; action = []; at = 0 }

emit_delivers_or_retries_example :
    let after = emit callbacks post 10 backend first in
    (Posted callbacks post backend (timed 10 first) none
      × (ack after receipt ≡ ok tt)
      × (after.out ≡ backend.out))
    ⊎ ((e : Text) × Undelivered callbacks post backend (timed 10 first) e
        × (lookup (codes "m1") after.out.items_by_id
            ≡ some (failed_item default_retry_policy 10 (timed 10 first) 1 e))
        × (after.ring ≡ backend.ring))
unfolding new_backend new_ring_store
emit_delivers_or_retries_example =
    emit_delivers_or_retries callbacks post 10 backend first receipt (omega arith) (omega arith)
      refl refl

outbox-Reachable : OutboxReachable default_retry_policy outbox
outbox-Reachable = OutboxReachable.fresh

OutboxReachable-IsSound_example : IsSound (tick waiting (2 * second) refused).0
OutboxReachable-IsSound_example = OutboxReachable-IsSound (
    next (next outbox-Reachable (failed 10 first 1 (codes "refused") (omega arith)))
      (ticked (2 * second) refused))
