-- ===== src/Server/Schedules/Due.antt =====
-- What is due is listed, in whatever order; a schedule that is moved on is not due.
use robotdreams.Base.{
  In-order_by, ℕ, ◌<◌, ◌≡◌, ◌⊎◌, sym, ap, ◌∙◌, Text, Assoc, eqb, eqb_iff, lookup, insert,
  lookup-insert, true, Option, none, some, List, [], ◌∷◌, keep, In, In-keep_iff, In-of_lookup,
  Option-cases, Bool-cases, ok, err, arith, inl, inr, if◌then◌else◌, ◌==◌,
}
use robotdreams.Server.Schedules.{
  Schedule, ScheduleError, by_time, rows, is_due, list_due, mark_fired,
}

-- Each row is under its own id.
abbrev pub Keyed : Assoc Schedule → Type 0
Keyed m = (k : Text) (s : Schedule) → lookup k m ≡ some s → s.id ≡ k

pub In-rows : (k : Text) (s : Schedule) (m : Assoc Schedule) → In (k, s) m → In s (rows m)
unfolding rows
In-rows k s [] h = h
In-rows k s (e ∷ m) (inl q) = inl (ap (λ z. z.1) q)
In-rows k s (e ∷ m) (inr h) = inr (In-rows k s m h)

pub In-list_due :
    (now : ℕ) (k : Text) (s : Schedule) (m : Assoc Schedule)
    → lookup k m ≡ some s
    → is_due now s ≡ true
    → In s (list_due now m)
unfolding list_due
In-list_due now k s m h d =
    In-order_by by_time s (keep (is_due now) (rows m))
      ((In-keep_iff (is_due now) s (rows m)).1 (In-rows k s m (In-of_lookup k s m h), d))

-- What a round has yet to look at: each schedule that is due, unless nothing comes after `now`.
unfoldable pub Waiting : (Schedule → Option ℕ) → ℕ → List Schedule → Assoc Schedule → Type 0
Waiting next now due m =
    (k : Text) (s : Schedule)
    → lookup k m ≡ some s
    → is_due now s ≡ true
    → (next s ≡ none) ⊎ In s due

pub list_due-Waiting :
    (next : Schedule → Option ℕ) (now : ℕ) (m : Assoc Schedule)
    → Waiting next now (list_due now m) m
unfolding Waiting
list_due-Waiting next now m k s h d = inr (In-list_due now k s m h d)

-- Moving a schedule on takes it off.
pub mark_fired-Waiting :
    (next : Schedule → Option ℕ) (now last at : ℕ) (sc : Schedule) (due : List Schedule)
    (m m' : Assoc Schedule)
    → now < at
    → Keyed m
    → Waiting next now (sc ∷ due) m
    → mark_fired sc.id last at m ≡ ok m'
    → Waiting next now due m' × Keyed m'
unfolding mark_fired Waiting
mark_fired-Waiting next now last at sc due m m' later keyed waiting h =
    elim (Option-cases (lookup sc.id m)) [
      | inl e ↦ absurd (ground arith)
      | inr (old, e) ↦
          let moved : Schedule = record old {
            last_at = if last == 0 then none else some last;
            next_at = at;
          } in
          let q : insert sc.id moved m ≡ m' = ground arith in
          rw (← q) (
            (λ k s l d. elim (Bool-cases (eqb sc.id k)) [
              | inl b ↦
                  let same : moved ≡ s = ground (arith, lookup-insert sc.id k moved m) in
                  absurd (ground (arith, ap (λ z. z.next_at) same))
              | inr b ↦
                  let l0 : lookup k m ≡ some s = ground (arith, lookup-insert sc.id k moved m) in
                  elim (waiting k s l0 d) [
                    | inl n ↦ inl n
                    | inr r ↦ elim r [
                      | inl x ↦
                          let y = ap (λ z. z.id) x in
                          let z = keyed k s l0 in absurd (ground (arith, eqb_iff sc.id k))
                      | inr r' ↦ inr r'
                    ]
                  ]
            ]),
            (λ k s l. elim (Bool-cases (eqb sc.id k)) [
              | inl b ↦
                  let same : moved ≡ s = ground (arith, lookup-insert sc.id k moved m) in
                  sym (ap (λ z. z.id) same) ∙ keyed sc.id old e ∙ (eqb_iff sc.id k).0 b
              | inr b ↦ keyed k s (ground (arith, lookup-insert sc.id k moved m))
            ]),
          )
    ]

-- A schedule that is gone waits for nothing.
pub gone-Waiting :
    (next : Schedule → Option ℕ) (now last at : ℕ) (sc : Schedule) (due : List Schedule)
    (m : Assoc Schedule) (x : ScheduleError)
    → Keyed m
    → Waiting next now (sc ∷ due) m
    → mark_fired sc.id last at m ≡ err x
    → Waiting next now due m
unfolding mark_fired Waiting
gone-Waiting next now last at sc due m x keyed waiting h k s l d = elim (waiting k s l d) [
  | inl n ↦ inl n
  | inr r ↦ elim r [
    | inl e ↦
        let y = ap (λ z. z.id) e in
        let z = keyed k s l in
        let there : lookup sc.id m ≡ some s = ap (λ j. lookup j m) (sym y ∙ z) ∙ l in
        absurd (ground arith)
    | inr r' ↦ inr r'
  ]
]
