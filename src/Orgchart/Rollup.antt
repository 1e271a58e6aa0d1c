-- ===== src/Orgchart/Rollup.antt =====
-- internal/orgchart/rollup.go: the summary of a worker's direct reports.
pub mod Bounds
use robotdreams.Base.{
  ℕ, ◌+◌, Text, Assoc, lookup, length, Bool, true, false, none, some, List, [], ◌∷◌, Result, ok,
  if◌then◌else◌, ltb, ◌>>=◌,
}
use robotdreams.Orgchart.Graph.{
  Graph, Worker, Error, Status, connected, degraded, disconnected, other, children,
}

pub record RollupSummary : Type 0 where
  pub direct_reports : ℕ
  pub active_count : ℕ
  pub last_activity : ℕ

pub record ActivityInfo : Type 0 where
  pub status : Status
  pub last_seen_at : ℕ

abbrev pub is_connected : Status → Bool
is_connected connected = true
is_connected degraded = false
is_connected disconnected = false
is_connected (other t) = false

-- What the activity map says of a worker, or else the worker's own fields.
unfoldable pub activity_of : Assoc ActivityInfo → Worker → ActivityInfo
activity_of activity c = elim (lookup c.id activity) [
  | none ↦ record { status = c.status; last_seen_at = c.last_seen_at }
  | some a ↦ a
]

abbrev pub count_if_connected : Status → ℕ → ℕ
count_if_connected s n = if is_connected s then n + 1 else n

abbrev pub later : ℕ → ℕ → ℕ
later seen last = if ltb last seen then seen else last

-- One turn of the loop over the direct reports.
unfoldable pub count_report : Assoc ActivityInfo → RollupSummary → Worker → RollupSummary
count_report activity sum c =
    let a = activity_of activity c in
    record sum {
      active_count = count_if_connected a.status sum.active_count;
      last_activity = later a.last_seen_at sum.last_activity;
    }

unfoldable pub tally : Assoc ActivityInfo → RollupSummary → List Worker → RollupSummary
tally activity sum [] = sum
tally activity sum (c ∷ cs) = tally activity (count_report activity sum c) cs

unfoldable pub rollup_with_activity : Graph → Text → Assoc ActivityInfo → Result Error RollupSummary
rollup_with_activity g worker_id activity = do
  found ← children g worker_id
  ok (
      tally activity (record { direct_reports = length found; active_count = 0; last_activity = 0 })
        found)

unfoldable pub rollup : Graph → Text → Result Error RollupSummary
unfolding rollup_with_activity
rollup g worker_id = rollup_with_activity g worker_id []
