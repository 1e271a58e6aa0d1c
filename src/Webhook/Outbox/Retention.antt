-- ===== src/Webhook/Outbox/Retention.antt =====
-- What a tick does to each item that is still pending, and which envelopes it reports as delivered.
use robotdreams.Base.{
  ℕ, ◌≡◌, ◌≢◌, refl, sym, subst, ◌∙◌, ap, Text, Assoc, eqb, eqb_iff, eqb_refl, lookup, insert,
  lookup-insert, lookup-erase, Distinct, length, Bool, true, false, none, some, Bool-cases, inl,
  inr, List, [], ◌∷◌, ◌++◌, map, keep, All, arith, if◌then◌else◌, ltb,
}
use robotdreams.Messaging.{Envelope}
use robotdreams.Webhook.Outbox.{
  Outbox, OutboxItem, RetryPolicy, Delivery, max_retained_terminal, terminal, drop_terminal, trim,
  store_item, is_due, due, attempted, attempt_all, tick,
}
use robotdreams.Webhook.Outbox.Attempts.{policy-store_item}

-- An item that is not terminal survives the eviction of terminal ones.
lookup-drop_terminal :
    (id k : Text) (m : Assoc OutboxItem) (i : OutboxItem)
    → lookup k m ≡ some i
    → terminal i ≡ false
    → lookup k (drop_terminal id m) ≡ some i
unfolding drop_terminal
lookup-drop_terminal id k m i h t = ground (arith, lookup-erase id k m, eqb_iff id k)

lookup-trim :
    (ids : List Text) (k : Text) (m : Assoc OutboxItem) (i : OutboxItem)
    → lookup k m ≡ some i
    → terminal i ≡ false
    → lookup k (trim ids m).1 ≡ some i
unfolding trim
lookup-trim [] k m i h t = h
lookup-trim (id ∷ ids) k m i h t =
    elim (Bool-cases (ltb max_retained_terminal (length (id ∷ ids)))) [
      | inl e ↦
          rw e (lookup-trim ids k (drop_terminal id m) i (lookup-drop_terminal id k m i h t) t)
      | inr e ↦ rw e h
    ]

lookup-store_item_ne :
    (o : Outbox) (x : OutboxItem) (k : Text) (i : OutboxItem)
    → x.env.id ≢ k
    → lookup k o.items_by_id ≡ some i
    → terminal i ≡ false
    → lookup k (store_item o x).items_by_id ≡ some i
unfolding store_item
lookup-store_item_ne o x k i ne h t =
    let e : lookup k (insert x.env.id x o.items_by_id) ≡ some i =
      ground (arith, lookup-insert x.env.id k x o.items_by_id, eqb_iff x.env.id k) in
    ground (
      arith,
      lookup-trim (o.terminal_ids ++ x.env.id ∷ []) k (insert x.env.id x o.items_by_id) i e t,
    )

lookup-store_item_self :
    (o : Outbox) (x : OutboxItem)
    → terminal x ≡ false
    → lookup x.env.id (store_item o x).items_by_id ≡ some x
unfolding store_item
lookup-store_item_self o x t =
    ground (arith, lookup-insert x.env.id x.env.id x o.items_by_id, eqb_refl x.env.id)

-- No item of the list has the id.
abbrev NoneHas : Text → List OutboxItem → Type 0
NoneHas k = All (λ x. x.env.id ≢ k)

env-attempted : (p : RetryPolicy) (x : OutboxItem) (d : Delivery) → (attempted p x d).env ≡ x.env
unfolding attempted
env-attempted p x d = ground arith

module _ (deliver : Envelope → Delivery) where
  attempt_all_ne :
      (items : List OutboxItem) (o : Outbox) (k : Text) (i : OutboxItem)
      → NoneHas k items
      → lookup k o.items_by_id ≡ some i
      → terminal i ≡ false
      → lookup k (attempt_all o deliver items).0.items_by_id ≡ some i
  unfolding attempt_all
  attempt_all_ne [] o k i n h t = h
  attempt_all_ne (x ∷ items) o k i (nx, n) h t =
      let x' = attempted o.policy x (deliver x.env) in
      attempt_all_ne items (store_item o x') k i n
        (lookup-store_item_ne o x' k i
          (λ e. nx (ap (λ y. y.id) (sym (env-attempted o.policy x (deliver x.env))) ∙ e)) h t)
        t

  abbrev pub Keyed : Assoc OutboxItem → Type 0
  Keyed = All (λ e. e.1.env.id ≡ e.0)

  due-NoneHas :
      (now : ℕ) (m : Assoc OutboxItem) (k : Text)
      → Keyed m
      → lookup k m ≡ none
      → NoneHas k (due now m)
  unfolding due lookup
  due-NoneHas now [] k d h = tt
  due-NoneHas now ((j, x) ∷ m) k (e, d) h = elim (Bool-cases (is_due now x)) [
    | inl u ↦ rw u ((λ s. ground (arith, eqb_iff j k)), due-NoneHas now m k d (ground arith))
    | inr u ↦ rw u (due-NoneHas now m k d (ground arith))
  ]

  first_due :
      (items : List OutboxItem) (o : Outbox) (x : OutboxItem)
      → NoneHas x.env.id items
      → terminal (attempted o.policy x (deliver x.env)) ≡ false
      → lookup x.env.id (attempt_all o deliver (x ∷ items)).0.items_by_id
        ≡ some (attempted o.policy x (deliver x.env))
  unfolding attempt_all
  first_due items o x n t =
      let x' = attempted o.policy x (deliver x.env) in
      let same : x'.env.id ≡ x.env.id = ap (λ y. y.id) (env-attempted o.policy x (deliver x.env)) in
      attempt_all_ne items (store_item o x') x.env.id x' n
        (subst (λ z. lookup z (store_item o x').items_by_id ≡ some x') same
          (lookup-store_item_self o x' t))
        t

  -- A due item is attempted once, by the tick's loop over all that is due.
  attempt_all-due :
      (now : ℕ) (m : Assoc OutboxItem) (o : Outbox) (p : RetryPolicy) (k : Text) (i : OutboxItem)
      → o.policy ≡ p
      → Keyed m
      → Distinct m
      → lookup k m ≡ some i
      → is_due now i ≡ true
      → terminal (attempted p i (deliver i.env)) ≡ false
      → lookup k (attempt_all o deliver (due now m)).0.items_by_id
        ≡ some (attempted p i (deliver i.env))
  unfolding due lookup attempt_all
  attempt_all-due now [] o p k i q kd dd h u t = cc
  attempt_all-due now ((j, x) ∷ m) o p k i q (e, kd) (d, dd) h u t = elim (Bool-cases (eqb j k)) [
    | inl s ↦
        let xi : i ≡ x = ground arith in
        let jk : x.env.id ≡ k = e ∙ (eqb_iff j k).0 s in
        let v : is_due now x ≡ true = subst (λ y. is_due now y ≡ true) xi u in
        let t' : terminal (attempted o.policy x (deliver x.env)) ≡ false =
          subst (λ y. terminal (attempted o.policy y (deliver y.env)) ≡ false) xi
            (subst (λ r. terminal (attempted r i (deliver i.env)) ≡ false) (sym q) t) in
        let n = due-NoneHas now m x.env.id kd (subst (λ z. lookup z m ≡ none) (sym e) d) in
        rw v (
          subst
            (λ r.
              lookup k (attempt_all o deliver (x ∷ due now m)).0.items_by_id
              ≡ some (attempted r i (deliver i.env)))
            q
            (subst
              (λ y.
                lookup k (attempt_all o deliver (x ∷ due now m)).0.items_by_id
                ≡ some (attempted o.policy y (deliver y.env)))
              (sym xi)
              (subst
                (λ z.
                  lookup z (attempt_all o deliver (x ∷ due now m)).0.items_by_id
                  ≡ some (attempted o.policy x (deliver x.env)))
                jk (first_due (due now m) o x n t'))))
    | inr s ↦ elim (Bool-cases (is_due now x)) [
      | inl v ↦
          let x' = attempted o.policy x (deliver x.env) in
          rw v (
            attempt_all-due now m (store_item o x') p k i (policy-store_item o x' ∙ q) kd dd
              (ground arith) u t)
      | inr v ↦ rw v (attempt_all-due now m o p k i q kd dd (ground arith) u t)
    ]
  ]

  attempt_all_early :
      (now : ℕ) (m : Assoc OutboxItem) (o : Outbox) (k : Text) (i : OutboxItem)
      → Keyed m
      → Distinct m
      → lookup k m ≡ some i
      → is_due now i ≡ false
      → NoneHas k (due now m)
  unfolding due lookup
  attempt_all_early now [] o k i kd dd h u = tt
  attempt_all_early now ((j, x) ∷ m) o k i (e, kd) (d, dd) h u = elim (Bool-cases (eqb j k)) [
    | inl s ↦
        let v : is_due now x ≡ false = ground arith in
        rw v (due-NoneHas now m k kd (subst (λ z. lookup z m ≡ none) ((eqb_iff j k).0 s) d))
    | inr s ↦
        let rest = attempt_all_early now m o k i kd dd (ground arith) u in
        elim (Bool-cases (is_due now x)) [
          | inl v ↦ rw v ((λ z. ground (arith, eqb_iff j k)), rest)
          | inr v ↦ rw v rest
        ]
  ]

  -- A tick attempts an item that is due once, with the outcome of its own POST, and leaves one that
  -- is pending and not due as it is. This is said of the items that are still pending after it.
  pub lookup-tick :
      (o : Outbox) (now : ℕ) (k : Text) (i : OutboxItem)
      → Keyed o.items_by_id
      → Distinct o.items_by_id
      → lookup k o.items_by_id ≡ some i
      → terminal i ≡ false
      → let i' = if is_due now i then attempted o.policy i (deliver i.env) else i in
        terminal i' ≡ false → lookup k (tick o now deliver).0.items_by_id ≡ some i'
  unfolding tick
  lookup-tick o now k i kd dd h t = elim (Bool-cases (is_due now i)) [
    | inl u ↦ rw u (λ t'. attempt_all-due now o.items_by_id o o.policy k i refl kd dd h u t')
    | inr u ↦ rw u (λ _.
        attempt_all_ne (due now o.items_by_id) o k i
          (attempt_all_early now o.items_by_id o k i kd dd h u) h t)
  ]

  abbrev pub succeeds : OutboxItem → Bool
  succeeds x = elim (deliver x.env).error [ none ↦ true | some e ↦ false ]

  delivered_are :
      (items : List OutboxItem) (o : Outbox)
      → All (λ x. terminal x ≡ false) items
      → (attempt_all o deliver items).1 ≡ map (λ x. x.env) (keep succeeds items)
  unfolding attempt_all attempted
  delivered_are [] o a = refl
  delivered_are (x ∷ items) o (n, a) =
      ground (arith, delivered_are items (store_item o (attempted o.policy x (deliver x.env))) a)

  due_pending : (now : ℕ) (m : Assoc OutboxItem) → All (λ x. terminal x ≡ false) (due now m)
  unfolding due
  due_pending now [] = tt
  due_pending now ((j, x) ∷ m) = ground (arith, due_pending now m)

  -- The envelopes that a tick hands to `onDelivered` are those of the due items whose POST
  -- succeeded, in the order of the due list.
  pub delivered-tick :
      (o : Outbox) (now : ℕ)
      → (tick o now deliver).1 ≡ map (λ x. x.env) (keep succeeds (due now o.items_by_id))
  unfolding tick
  delivered-tick o now = delivered_are (due now o.items_by_id) o (due_pending now o.items_by_id)
