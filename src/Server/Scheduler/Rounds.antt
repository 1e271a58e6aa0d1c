-- ===== src/Server/Scheduler/Rounds.antt =====
-- After a round nothing that has a next time is due.
use robotdreams.Base.{
  ℕ, ◌<◌, ◌≡◌, ◌≢◌, refl, sym, ap, ◌∙◌, subst, Text, lookup, true, false, Option, none, some, List,
  [], ◌∷◌, Option-cases, Bool-cases, Result-cases, Result, ok, err, arith, inl, inr, ◌==◌, ==_iff,
  trim_space,
}
use robotdreams.Messaging.{Envelope}
use robotdreams.Server.Schedules.{Schedule, Cron, parse_cron, is_due, list_due, mark_fired}
use robotdreams.Server.Schedules.Due.{
  Keyed, Waiting, list_due-Waiting, mark_fired-Waiting, gone-Waiting,
}
use robotdreams.Server.State.{Server, ServerError, World, marks}
use robotdreams.Server.Routing.Footprint.{Keeps-emit_from_worker}
use robotdreams.Server.Scheduler.{
  ScheduleFired, noting, next_after, fire_schedule, advance, start_all, start, settle, tick_one,
  tick_all, tick, last_fired_at,
}

-- The cron library promises a time after the one it is given, or none; the store does its part.
module _ (w : World) (cron : Cron) (now : ℕ)
    (later : (e : Text) (next : ℕ → ℕ) (t : ℕ) → cron e ≡ some next → next t ≢ 0 → t < next t)
    (stores : (id : Text) → w.fails (marks id) ≡ false) where
  Good : List Schedule → Server → Type 0
  Good due s = Waiting (λ sc. next_after cron sc now) now due s.schedules × Keyed s.schedules

  next_after-later : (sc : Schedule) (at : ℕ) → next_after cron sc now ≡ some at → now < at
  unfolding next_after parse_cron
  next_after-later sc at h = elim (Option-cases (parse_cron cron sc.cron)) [
    | inl e ↦ absurd (ground arith)
    | inr (next, e) ↦ elim (Bool-cases (next now == 0)) [
      | inl z ↦ absurd (ground arith)
      | inr z ↦
          let named : cron (trim_space sc.cron) ≡ some next = ground arith in
          let there : next now ≡ at = ground arith in
          subst (λ t. now < t) there
            (later (trim_space sc.cron) next now named (λ q. ground (arith, ==_iff (next now) 0)))
    ]
  ]

  advance-Good :
      (sc : Schedule) (due : List Schedule) (last at : ℕ) (s : Server)
      → now < at
      → Good (sc ∷ due) s
      → Good due (advance w sc.id last at s).1
  unfolding advance Good
  advance-Good sc due last at s l (waiting, keyed) =
      rw (stores sc.id) (elim (Result-cases (mark_fired sc.id last at s.schedules)) [
        | inl (m, e) ↦
            rw e (mark_fired-Waiting _ now last at sc due s.schedules m l keyed waiting e)
        | inr (x, e) ↦ rw e (gone-Waiting _ now last at sc due s.schedules x keyed waiting e, keyed)
      ])

  skip-Good :
      (sc : Schedule) (due : List Schedule) (s : Server)
      → next_after cron sc now ≡ none
      → Good (sc ∷ due) s
      → Good due s
  unfolding Good Waiting
  skip-Good sc due s e (waiting, keyed) = (
    (λ k x h d. elim (waiting k x h d) [
      | inl n ↦ inl n
      | inr r ↦ elim r [ inl q ↦ inl (ap (λ z. next_after cron z now) q ∙ e) | inr i ↦ inr i ]
    ]),
    keyed,
  )

  settle-Good :
      (sc : Schedule) (due : List Schedule) (at : ℕ) (r : Result ServerError Envelope × Server)
      → now < at
      → Good (sc ∷ due) r.1
      → Good due (settle w now sc at r).1
  unfolding settle
  settle-Good sc due at (err e, s) l g = advance-Good sc due (last_fired_at sc) at s l g
  settle-Good sc due at (ok env, s) l g = advance-Good sc due now at s l g

  tick_one-Good :
      (sc : Schedule) (due : List Schedule) (s : Server)
      → Good (sc ∷ due) s
      → Good due (tick_one w cron now sc s).1
  unfolding tick_one fire_schedule Good
  tick_one-Good sc due s g = elim (Option-cases (next_after cron sc now)) [
    | inl e ↦ rw (e, tick_one) (skip-Good sc due s e g)
    | inr (at, e) ↦
        rw (e, tick_one)
          (settle-Good sc due at (fire_schedule w sc s) (next_after-later sc at e)
            (Keeps-emit_from_worker (Good (sc ∷ due)) (λ s n p. p) (λ s es p. p) w sc.owner _ s g))
  ]

  noted : (o : Option ScheduleFired) (r : List ScheduleFired × Server) → (noting o r).1 ≡ r.1
  noted none r = refl
  noted (some f) (fs, s) = refl

  tick_all-Good :
      (due : List Schedule) (s : Server) → Good due s → Good [] (tick_all w cron now due s).1
  unfolding tick_all
  tick_all-Good [] s g = g
  tick_all-Good (sc ∷ due) s g =
      let one = tick_one w cron now sc s in
      subst (Good []) (sym (noted one.0 (tick_all w cron now due one.1)))
        (tick_all-Good due one.1 (tick_one-Good sc due s g))

  -- After a tick, with a store that takes the marks, rows under their own ids and a cron library that
  -- answers with later times, no schedule is due but those that have no next time, whether or not the
  -- messages went out.
  pub tick-none_due :
      (s : Server) (k : Text) (sc : Schedule)
      → Keyed s.schedules
      → lookup k (tick w cron now s).1.schedules ≡ some sc
      → is_due now sc ≡ true
      → next_after cron sc now ≡ none
  unfolding tick Good Waiting
  tick-none_due s k sc keyed h d =
      elim ((tick_all-Good (list_due now s.schedules) s
          (list_due-Waiting _ now s.schedules, keyed)).0
        k sc h d) [ inl n ↦ n | inr i ↦ absurd i ]

  start_all-Good :
      (due : List Schedule) (s : Server) → Good due s → Good [] (start_all w cron now due s)
  unfolding start_all
  start_all-Good [] s g = g
  start_all-Good (sc ∷ due) s g = elim (Option-cases (next_after cron sc now)) [
    | inl e ↦ rw (e, start_all) (start_all-Good due s (skip-Good sc due s e g))
    | inr (at, e) ↦
        rw (e, start_all)
          (start_all-Good due (advance w sc.id (last_fired_at sc) at s).1
            (advance-Good sc due (last_fired_at sc) at s (next_after-later sc at e) g))
  ]

  advance-sent : (id : Text) (last at : ℕ) (s : Server) → (advance w id last at s).1.sent ≡ s.sent
  unfolding advance
  advance-sent id last at s =
      rw (stores id) (elim (Result-cases (mark_fired id last at s.schedules)) [
        | inl (m, e) ↦ rw e refl
        | inr (x, e) ↦ rw e refl
      ])

  start_all-sent : (due : List Schedule) (s : Server) → (start_all w cron now due s).sent ≡ s.sent
  unfolding start_all
  start_all-sent [] s = refl
  start_all-sent (sc ∷ due) s = elim (Option-cases (next_after cron sc now)) [
    | inl e ↦ rw (e, start_all) (start_all-sent due s)
    | inr (at, e) ↦
        rw (e, start_all)
          (start_all-sent due (advance w sc.id (last_fired_at sc) at s).1
            ∙ advance-sent sc.id (last_fired_at sc) at s)
  ]

  -- Under the same conditions the start of the scheduler sends nothing, and leaves no schedule due but
  -- those that have no next time.
  pub start-none_due :
      (s : Server)
      → Keyed s.schedules
      → ((start w cron now s).sent ≡ s.sent)
        × ((k : Text) (sc : Schedule)
            → lookup k (start w cron now s).schedules ≡ some sc
            → is_due now sc ≡ true
            → next_after cron sc now ≡ none)
  unfolding start Good Waiting
  start-none_due s keyed = (
    start_all-sent (list_due now s.schedules) s,
    λ k sc h d.
        elim ((start_all-Good (list_due now s.schedules) s
            (list_due-Waiting _ now s.schedules, keyed)).0
          k sc h d) [ inl n ↦ n | inr i ↦ absurd i ],
  )
