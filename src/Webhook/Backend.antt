-- ===== src/Webhook/Backend.antt =====
-- pkg/messaging/webhook/webhook.go: the backend between the ring and the outbox. The POST, with the
-- parsing of the URL, the JSON and the request before it, is a parameter: its error, if any.
-- Subscriptions, which hand a delivered envelope to channels, are left out.
pub mod Custody
use robotdreams.Base.{
  ℕ, Text, Assoc, codes, lookup, insert, Option, none, some, List, [], ◌∷◌, Result, ok, err,
  if◌then◌else◌, ◌==◌,
}
use robotdreams.Messaging.{Envelope, TailFilter, Ack, BackendError, not_found}
use robotdreams.Webhook.Ring.{RingStore, new_ring_store}
use robotdreams.Webhook.Ring
use robotdreams.Webhook.Outbox.{Outbox, RetryPolicy, new_outbox, enqueue_failed}
use robotdreams.Webhook.Outbox

pub record Backend : Type 0 where
  pub callback_by_worker : Assoc Text
  pub ring : RingStore
  pub out : Outbox

abbrev pub default_ring_buffer_size : ℕ
default_ring_buffer_size = 200

unfoldable pub new_backend : RetryPolicy → Backend
new_backend p = record {
  callback_by_worker = [];
  ring = new_ring_store default_ring_buffer_size;
  out = new_outbox p;
}

unfoldable pub register_callback : Backend → Text → Text → Backend
register_callback b worker_id url = record b {
  callback_by_worker = insert worker_id url b.callback_by_worker;
}

-- What the recorded callbacks do not have, the resolver may.
unfoldable pub resolve_callback : (Text → Option Text) → Backend → Text → Option Text
resolve_callback resolver b worker_id = elim (lookup worker_id b.callback_by_worker) [
  | some url ↦ some url
  | none ↦ resolver worker_id
]

-- The ring takes what was delivered.
unfoldable pub on_delivered : Backend → Envelope → Backend
on_delivered b env = record b { ring = Ring.add b.ring env }

unfoldable pub ack : Backend → Ack → Result BackendError (Unit {0})
ack b a = if Ring.contains b.ring a.by_worker a.message_id then ok tt else err not_found

unfoldable pub tail_messages : Backend → TailFilter → List Envelope
tail_messages b filter = Ring.tail b.ring filter

-- A creation time that is not set is now.
abbrev pub timed : ℕ → Envelope → Envelope
timed now env = record env { created_at = if env.created_at == 0 then now else env.created_at }

module _ (resolver : Text → Option Text) (post : Text → Envelope → Option Text) where
  unfoldable pub attempt_deliver : Backend → Envelope → Option Text
  unfolding resolve_callback
  attempt_deliver b env = elim (resolve_callback resolver b env.to) [
    | none ↦ some (codes "no callback registered")
    | some url ↦ post url env
  ]

  -- Emit always answers with success: what was not delivered waits in the outbox.
  unfoldable pub emit : ℕ → Backend → Envelope → Backend
  unfolding attempt_deliver on_delivered
  emit now b env = elim (attempt_deliver b (timed now env)) [
    | none ↦ on_delivered b (timed now env)
    | some e ↦ record b { out = enqueue_failed b.out now (timed now env) 1 e }
  ]

  unfoldable pub deliver_all : Backend → List Envelope → Backend
  unfolding on_delivered
  deliver_all b [] = b
  deliver_all b (env ∷ envs) = deliver_all (on_delivered b env) envs

  -- A round of the outbox; each POST ends at `now`.
  unfoldable pub tick_backend : ℕ → Backend → Backend
  unfolding attempt_deliver deliver_all
  tick_backend now b =
      let round =
        Outbox.tick b.out now (λ env. record { error = attempt_deliver b env; at = now }) in
      deliver_all (record b { out = round.0 }) round.1
