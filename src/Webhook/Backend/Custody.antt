-- ===== src/Webhook/Backend/Custody.antt =====
-- What becomes of a message that Emit of pkg/messaging/webhook/webhook.go takes.
use robotdreams.Base.{
  ℕ, ◌<◌, ◌≡◌, ◌⊎◌, refl, Text, codes, none, ◌∙◌, lookup, lookup-insert, eqb_refl, false, Option,
  some, Option-cases, inl, inr, arith, leb, ok,
}
use robotdreams.Messaging.{Envelope, Ack}
use robotdreams.Webhook.Ring.History.{contains-add}
use robotdreams.Webhook.Outbox.{Outbox, enqueue_failed, store_item, failed_item}
use robotdreams.Webhook.Backend.{
  Backend, emit, timed, resolve_callback, attempt_deliver, on_delivered, ack,
}

lookup-enqueue_failed :
    (o : Outbox) (now : ℕ) (env : Envelope) (n : ℕ) (e : Text)
    → n < o.policy.max_attempts
    → lookup env.id (enqueue_failed o now env n e).items_by_id
      ≡ some (failed_item o.policy now env n e)
unfolding enqueue_failed store_item failed_item
lookup-enqueue_failed o now env n e h =
    let f : leb o.policy.max_attempts n ≡ false = ground arith in
    ground (
      arith,
      lookup-insert env.id env.id (failed_item o.policy now env n e) o.items_by_id,
      eqb_refl env.id,
    )

module _ (resolver : Text → Option Text) (post : Text → Envelope → Option Text) where
  -- The POST of the envelope to its recipient's callback came to this: an error, or none.
  abbrev pub Posted : Backend → Envelope → Option Text → Type 0
  Posted b env r =
      (url : Text) × (resolve_callback resolver b env.to ≡ some url) × (post url env ≡ r)

  -- The recipient has no callback, and the error says so, or the POST failed with the error.
  abbrev pub Undelivered : Backend → Envelope → Text → Type 0
  Undelivered b env e =
      ((resolve_callback resolver b env.to ≡ none) × (e ≡ codes "no callback registered"))
      ⊎ Posted b env (some e)

  attempt_deliver_cases :
      (b : Backend) (env : Envelope)
      → ((attempt_deliver resolver post b env ≡ none) × Posted b env none)
        ⊎ ((e : Text) × (attempt_deliver resolver post b env ≡ some e) × Undelivered b env e)
  unfolding attempt_deliver
  attempt_deliver_cases b env = elim (Option-cases (resolve_callback resolver b env.to)) [
    | inl h ↦
        let q : attempt_deliver resolver post b env ≡ some (codes "no callback registered") =
          rw (attempt_deliver, h) refl in
        inr (codes "no callback registered", q, inl (h, refl))
    | inr (url, h) ↦
        let q : attempt_deliver resolver post b env ≡ post url env = rw (attempt_deliver, h) refl in
        elim (Option-cases (post url env)) [
          | inl k ↦ inl (q ∙ k, (url, h, k))
          | inr (e, k) ↦ inr (e, q ∙ k, inr (url, h, k))
        ]
  ]

  -- Where the policy allows a second attempt and the ring holds anything, a message that was emitted
  -- went to its recipient's callback without an error, can be acknowledged by the recipient, and the
  -- outbox is as it was; or there is no callback or the POST failed, and the message waits with that
  -- error in the outbox for its second attempt, and the ring is as it was.
  pub emit_delivers_or_retries :
      (now : ℕ) (b : Backend) (env : Envelope) (a : Ack)
      → 1 < b.out.policy.max_attempts
      → 0 < b.ring.capacity
      → a.message_id ≡ env.id
      → a.by_worker ≡ env.to
      → let after = emit resolver post now b env in
        (Posted b (timed now env) none × (ack after a ≡ ok tt) × (after.out ≡ b.out))
        ⊎ ((e : Text) × Undelivered b (timed now env) e
            × (lookup env.id after.out.items_by_id
                ≡ some (failed_item b.out.policy now (timed now env) 1 e))
            × (after.ring ≡ b.ring))
  unfolding emit on_delivered ack
  emit_delivers_or_retries now b env a many room i w =
      elim (attempt_deliver_cases b (timed now env)) [
        | inl (h, p) ↦ inl (
          p,
          rw (h, emit) (rw (i, w) (rw (contains-add b.ring (timed now env) room) refl)),
          rw (h, emit) refl,
        )
        | inr (e, h, u) ↦ inr (
          e,
          u,
          rw (h, emit) (lookup-enqueue_failed b.out now (timed now env) 1 e many),
          rw (h, emit) refl,
        )
      ]
