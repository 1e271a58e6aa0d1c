-- ===== src/Webhook/Ring/History.antt =====
-- The ring after any sequence of deliveries.
use mathlib.Core.List.{append_assoc, append-nil}
use robotdreams.Base.{
  length-last_n-le, any-last_n, eqb_refl, subst, ◌<◌, ℕ, ◌-◌, ◌≤◌, ◌≡◌, refl, ◌∙◌, ap, Text, eqb,
  eqb_iff, lookup-insert, length, last_n, last_n-append, keep, true, Bool-cases, inl, inr, List, [],
  ◌∷◌, ◌++◌, arith, if◌then◌else◌, ltb,
}
use robotdreams.Messaging.{Envelope}
use robotdreams.Webhook.Ring.{RingStore, of_worker, bounded, add, contains}

abbrev pub add_all : RingStore → List Envelope → RingStore
add_all r [] = r
add_all r (env ∷ envs) = add_all (add r env) envs

-- The envelopes of a sequence that are addressed to a worker.
abbrev pub addressed : Text → List Envelope → List Envelope
addressed k = keep (λ env. eqb env.to k)

bounded-eq-last_n : (n : ℕ) (l : List Envelope) → bounded n l ≡ last_n n l
bounded-eq-last_n n l = elim (Bool-cases (ltb n (length l))) [
  | inl h ↦ rw h
  | inr h ↦ let e : length l - n ≡ 0 = ground arith in rw (h, e)
]

add-capacity : (r : RingStore) (env : Envelope) → (add r env).capacity ≡ r.capacity
unfolding add
add-capacity r env = refl

of_worker-add_self :
    (r : RingStore) (env : Envelope)
    → of_worker (add r env) env.to ≡ last_n r.capacity (of_worker r env.to ++ env ∷ [])
unfolding add
of_worker-add_self r env =
    rw (lookup-insert env.to env.to _ r.by_worker, eqb_refl env.to)
      (bounded-eq-last_n r.capacity (of_worker r env.to ++ env ∷ []))

of_worker-add :
    (r : RingStore) (env : Envelope) (k : Text)
    → of_worker (add r env) k
      ≡ (if eqb env.to k then last_n r.capacity (of_worker r k ++ env ∷ []) else of_worker r k)
unfolding add
of_worker-add r env k = elim (Bool-cases (eqb env.to k)) [
  | inl h ↦ rw h (
      subst (λ j. of_worker (add r env) j ≡ last_n r.capacity (of_worker r j ++ env ∷ []))
        ((eqb_iff env.to k).0 h) (of_worker-add_self r env))
  | inr h ↦ rw (h, lookup-insert env.to k _ r.by_worker, h)
]

-- After any deliveries the ring holds, for each worker, the last `capacity` of what it held and
-- what was delivered to the worker, in order.
pub history :
    (envs : List Envelope) (r : RingStore) (k : Text)
    → length (of_worker r k) ≤ r.capacity
    → of_worker (add_all r envs) k ≡ last_n r.capacity (of_worker r k ++ addressed k envs)
history [] r k h =
    let e : length (of_worker r k) - r.capacity ≡ 0 = omega arith in rw (append-nil, e)
history (env ∷ envs) r k h =
    let c = add-capacity r env in
    elim (Bool-cases (eqb env.to k)) [
      | inl t ↦
          let e : of_worker (add r env) k ≡ last_n r.capacity (of_worker r k ++ env ∷ []) =
            of_worker-add r env k ∙ (rw t) in
          rw (t, history envs (add r env) k (rw (e, c) (length-last_n-le r.capacity _)), c, e)
            (last_n-append r.capacity (of_worker r k ++ env ∷ []) (addressed k envs)
              ∙ ap (last_n r.capacity) (append_assoc (of_worker r k) (env ∷ []) (addressed k envs)))
      | inr t ↦
          let e : of_worker (add r env) k ≡ of_worker r k = of_worker-add r env k ∙ (rw t) in
          rw (t, history envs (add r env) k (rw (e, c) h), c, e)
    ]

-- A worker that has had something delivered since can acknowledge the last of it, where the ring
-- holds anything at all.
pub contains-add :
    (r : RingStore) (env : Envelope) → 0 < r.capacity → contains (add r env) env.to env.id ≡ true
unfolding contains
contains-add r env pos =
    rw (of_worker-add_self r env)
      (any-last_n (λ x. eqb x.id env.id) r.capacity (of_worker r env.to) env pos (eqb_refl env.id))
