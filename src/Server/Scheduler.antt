-- ===== src/Server/Scheduler.antt =====
-- internal/server/scheduler.go: the rounds that fire the schedules that are due. What the code logs
-- and goes on from leaves no trace here but the state.
pub mod Rounds
use robotdreams.Base.{
  ℕ, Text, Bool, true, false, Option, none, some, List, [], ◌∷◌, Result, ok, err, if◌then◌else◌,
  ◌==◌,
}
use robotdreams.Messaging.{Envelope, scheduled}
use robotdreams.Server.Schedules.{Schedule, Cron, parse_cron, list_due, mark_fired}
use robotdreams.Server.State.{World, Server, ServerError, M, marks}
use robotdreams.Server.Routing.{emit_from_worker}

pub record ScheduleFired : Type 0 where
  pub schedule : Schedule
  pub envelope : Envelope
  pub fired_at : ℕ
  pub next_at : ℕ

abbrev pub last_fired_at : Schedule → ℕ
last_fired_at s = elim s.last_at [ none ↦ 0 | some t ↦ t ]

unfoldable pub next_after : Cron → Schedule → ℕ → Option ℕ
next_after cron s now = elim (parse_cron cron s.cron) [
  | none ↦ none
  | some next ↦ if next now == 0 then none else some (next now)
]

abbrev noting : Option ScheduleFired → List ScheduleFired × Server → List ScheduleFired × Server
noting none r = r
noting (some f) (fs, s) = (f ∷ fs, s)

module _ (w : World) where
  unfoldable pub fire_schedule : Schedule → M Envelope
  fire_schedule sc = emit_from_worker w sc.owner (record {
    id = [];
    type = scheduled;
    from = [];
    to = sc.to;
    subject = sc.subject;
    body = sc.body;
    storage_ptr = none;
    created_at = 0;
    causation_id = sc.id;
  })

  -- `MarkFired`, whose failure leaves the row as it was.
  unfoldable pub advance : Text → ℕ → ℕ → Server → Bool × Server
  advance id last next s =
      if w.fails (marks id) then (false, s) else elim (mark_fired id last next s.schedules) [
        | err _ ↦ (false, s)
        | ok m ↦ (true, record s { schedules = m })
      ]

  unfoldable pub start_all : Cron → ℕ → List Schedule → Server → Server
  unfolding next_after advance
  start_all cron now [] s = s
  start_all cron now (sc ∷ due) s = start_all cron now due (elim (next_after cron sc now) [
    | none ↦ s
    | some next ↦ (advance sc.id (last_fired_at sc) next s).1
  ])

  -- What came due while the server was down is not fired.
  unfoldable pub start : Cron → ℕ → Server → Server
  start cron now s = start_all cron now (list_due now s.schedules) s

  -- A schedule is moved on whether or not its message went out, and counts as fired if it did.
  unfoldable pub settle :
      ℕ → Schedule → ℕ → Result ServerError Envelope × Server → Option ScheduleFired × Server
  settle now sc next (err _, s) = (none, (advance sc.id (last_fired_at sc) next s).1)
  settle now sc next (ok env, s) =
      let moved = advance sc.id now next s in
      (
        if moved.0
            then some (record { schedule = sc; envelope = env; fired_at = now; next_at = next })
            else none,
        moved.1,
      )

  unfoldable pub tick_one : Cron → ℕ → Schedule → Server → Option ScheduleFired × Server
  tick_one cron now sc s = elim (next_after cron sc now) [
    | none ↦ (none, s)
    | some next ↦ settle now sc next (fire_schedule sc s)
  ]

  unfoldable pub tick_all : Cron → ℕ → List Schedule → Server → List ScheduleFired × Server
  tick_all cron now [] s = ([], s)
  tick_all cron now (sc ∷ due) s =
      let one = tick_one cron now sc s in noting one.0 (tick_all cron now due one.1)

  -- The schedules that fired, in order; the code counts them and reports each.
  unfoldable pub tick : Cron → ℕ → Server → List ScheduleFired × Server
  tick cron now s = tick_all cron now (list_due now s.schedules) s
