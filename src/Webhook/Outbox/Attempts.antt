-- ===== src/Webhook/Outbox/Attempts.antt =====
-- The invariant of the outbox, which a failed Emit and a tick keep.
use robotdreams.Base.{
  ℕ, suc, ◌≤◌, ◌<◌, ◌≡◌, refl, sym, subst, Text, Assoc, eqb, lookup, insert, erase, length, true,
  false, ◌&&◌, Option-cases, Bool-cases, inl, inr, List, [], ◌∷◌, ◌++◌, All, arith, ltb, leb,
}
use robotdreams.Messaging.{Envelope}
use robotdreams.Webhook.Outbox.{
  Outbox, OutboxItem, RetryPolicy, Delivery, max_retained_terminal, terminal, drop_terminal, trim,
  store_item, failed_item, enqueue_failed, is_due, due, attempted, attempt_all, tick,
}

-- An item stands under its envelope's id; it was attempted at most as often as the policy allows,
-- and less often while it is neither delivered nor failed; it failed only after all attempts, and
-- is not both delivered and failed.
pub record IsTracked (p : RetryPolicy) (k : Text) (item : OutboxItem) : Type 0 where
  pub keyed : item.env.id ≡ k
  pub bounded : item.attempts ≤ p.max_attempts
  pub pending : terminal item ≡ false → item.attempts < p.max_attempts
  pub exhausted : item.failed ≡ true → item.attempts ≡ p.max_attempts
  pub exclusive : item.delivered && item.failed ≡ false

abbrev pub AllTracked : RetryPolicy → Assoc OutboxItem → Type 0
AllTracked p = All (λ e. IsTracked p e.0 e.1)

pub record IsSound (o : Outbox) : Type 0 where
  pub tracked : AllTracked o.policy o.items_by_id
  pub retained : length o.terminal_ids ≤ max_retained_terminal

erase-AllTracked :
    (p : RetryPolicy) (k : Text) (m : Assoc OutboxItem) → AllTracked p m → AllTracked p (erase k m)
unfolding erase
erase-AllTracked p k [] a = tt
erase-AllTracked p k ((j, item) ∷ m) (t, a) = elim (Bool-cases (eqb j k)) [
  | inl h ↦ rw h (erase-AllTracked p k m a)
  | inr h ↦ rw h (t, erase-AllTracked p k m a)
]

drop_terminal-AllTracked :
    (p : RetryPolicy) (k : Text) (m : Assoc OutboxItem)
    → AllTracked p m
    → AllTracked p (drop_terminal k m)
unfolding drop_terminal
drop_terminal-AllTracked p k m a = elim (Option-cases (lookup k m)) [
  | inl h ↦ rw (h, drop_terminal) a
  | inr (item, h) ↦ elim (Bool-cases (terminal item)) [
    | inl t ↦ rw (h, drop_terminal, t) (erase-AllTracked p k m a)
    | inr t ↦ rw (h, drop_terminal, t) a
  ]
]

trim-AllTracked :
    (p : RetryPolicy) (ids : List Text) (m : Assoc OutboxItem)
    → AllTracked p m
    → AllTracked p (trim ids m).1
unfolding trim
trim-AllTracked p [] m a = a
trim-AllTracked p (oldest ∷ ids) m a =
    elim (Bool-cases (ltb max_retained_terminal (length (oldest ∷ ids)))) [
      | inl h ↦
          rw h
            (trim-AllTracked p ids (drop_terminal oldest m) (drop_terminal-AllTracked p oldest m a))
      | inr h ↦ rw h a
    ]

length-trim-le :
    (ids : List Text) (m : Assoc OutboxItem) → length (trim ids m).0 ≤ max_retained_terminal
unfolding trim
length-trim-le [] m = omega arith
length-trim-le (oldest ∷ ids) m = ground (arith, length-trim-le ids (drop_terminal oldest m))

store_item-IsSound :
    (o : Outbox) (item : OutboxItem)
    → IsSound o
    → IsTracked o.policy item.env.id item
    → IsSound (store_item o item)
unfolding store_item insert
store_item-IsSound o item s t =
    let a : AllTracked o.policy (insert item.env.id item o.items_by_id) =
      (t, erase-AllTracked o.policy item.env.id o.items_by_id s.tracked) in
    elim (Bool-cases (terminal item)) [
      | inl h ↦ rw h (record {
        tracked = trim-AllTracked o.policy (o.terminal_ids ++ item.env.id ∷ []) _ a;
        retained = length-trim-le (o.terminal_ids ++ item.env.id ∷ []) _;
      })
      | inr h ↦ rw h (record { tracked = a; retained = s.retained })
    ]

attempted-IsTracked :
    (p : RetryPolicy) (k : Text) (item : OutboxItem) (d : Delivery)
    → IsTracked p k item
    → terminal item ≡ false
    → IsTracked p (attempted p item d).env.id (attempted p item d)
unfolding attempted
attempted-IsTracked p k item d t pending = elim (Option-cases d.error) [
  | inl e ↦
      rw (e, attempted)
        (record {
          keyed = refl;
          bounded = t.pending pending;
          pending = λ h. ground arith;
          exhausted = λ h. ground arith;
          exclusive = ground arith;
        })
  | inr (x, e) ↦ elim (Bool-cases (leb p.max_attempts (suc item.attempts))) [
    | inl last ↦
        rw (e, attempted, last)
          (record {
            keyed = refl;
            bounded = t.pending pending;
            pending = λ h. ground arith;
            exhausted = λ h. ground (arith, t.pending pending);
            exclusive = ground arith;
          })
    | inr more ↦
        rw (e, attempted, more)
          (record {
            keyed = refl;
            bounded = t.pending pending;
            pending = λ h. ground arith;
            exhausted = λ h. ground arith;
            exclusive = ground arith;
          })
  ]
]

-- The items that a tick takes up: tracked, and neither delivered nor failed.
abbrev AllDue : RetryPolicy → List OutboxItem → Type 0
AllDue p = All (λ item. IsTracked p item.env.id item × (terminal item ≡ false))

due-AllDue :
    (p : RetryPolicy) (now : ℕ) (m : Assoc OutboxItem) → AllTracked p m → AllDue p (due now m)
unfolding due
due-AllDue p now [] a = tt
due-AllDue p now ((k, item) ∷ m) (t, a) = elim (Bool-cases (is_due now item)) [
  | inl h ↦
      rw h ((subst (λ j. IsTracked p j item) (sym t.keyed) t, ground arith), due-AllDue p now m a)
  | inr h ↦ rw h (due-AllDue p now m a)
]

pub policy-store_item : (o : Outbox) (item : OutboxItem) → (store_item o item).policy ≡ o.policy
unfolding store_item
policy-store_item o item = ground arith

attempt_all-IsSound :
    (o : Outbox) (deliver : Envelope → Delivery) (items : List OutboxItem)
    → IsSound o
    → AllDue o.policy items
    → IsSound (attempt_all o deliver items).0
unfolding attempt_all
attempt_all-IsSound o deliver [] s a = s
attempt_all-IsSound o deliver (item ∷ items) s ((t, n), a) =
    let item' = attempted o.policy item (deliver item.env) in
    attempt_all-IsSound (store_item o item') deliver items
      (store_item-IsSound o item' s
        (attempted-IsTracked o.policy item.env.id item (deliver item.env) t n))
      (subst (λ q. AllDue q items) (sym (policy-store_item o item')) a)

-- Whatever the POSTs come to, a tick keeps the outbox sound: each item is under its own id and was
-- attempted at most as often as the policy allows, just as often if it failed and less if it is
-- pending, none is both delivered and failed, and at most a thousand finished ids are listed.
pub tick-IsSound :
    (o : Outbox) (now : ℕ) (deliver : Envelope → Delivery)
    → IsSound o
    → IsSound (tick o now deliver).0
unfolding tick
tick-IsSound o now deliver s =
    attempt_all-IsSound o deliver (due now o.items_by_id) s
      (due-AllDue o.policy now o.items_by_id s.tracked)

-- Taking up a failed envelope keeps the outbox sound, where it was attempted at most as often as the
-- policy allows.
pub enqueue_failed-IsSound :
    (o : Outbox) (now : ℕ) (env : Envelope) (attempts : ℕ) (e : Text)
    → IsSound o
    → attempts ≤ o.policy.max_attempts
    → IsSound (enqueue_failed o now env attempts e)
unfolding enqueue_failed failed_item
enqueue_failed-IsSound o now env attempts e s h =
    store_item-IsSound o (failed_item o.policy now env attempts e) s (record {
      keyed = refl;
      bounded = h;
      pending = λ p. ground arith;
      exhausted = λ p. ground arith;
      exclusive = refl;
    })
