-- ===== src/Server/Reload.antt =====
-- loadGraph, reattachOrphansToRoot and loadOrgChartFile of internal/server/server.go: the chart in
-- memory is built again from rows that stand in any order.
pub mod Rebuild
pub mod Rounds
use robotdreams.Base.{ℕ, zero, suc, List, [], ◌∷◌, map, length, ok, err, if◌then◌else◌, ◌==◌}
use robotdreams.Orgchart.Graph.{Worker, Error, Graph, add_worker, parent_not_found, with_parent}
use robotdreams.Orgchart.Graph
use robotdreams.Server.State.{
  World, M, ◌>>=◌, ◌>>◌, pure, raise, gets, edit, upsert_worker, chart, endless,
}

-- A worker whose parent is not there yet is put off; any other error ends the round.
unfoldable pub deferring : Error → Worker → M (List Worker) → M (List Worker)
deferring Graph.parent_not_found v rest = rest >>= λ deferred. pure (v ∷ deferred)
deferring Graph.not_found v rest = raise (chart Graph.not_found)
deferring Graph.duplicate_worker v rest = raise (chart Graph.duplicate_worker)
deferring Graph.cycle v rest = raise (chart Graph.cycle)
deferring Graph.invalid_worker v rest = raise (chart Graph.invalid_worker)

-- One round: what finds its parent is added, what does not is put off.
unfoldable pub add_round : List Worker → M (List Worker)
unfolding deferring
add_round [] s = pure [] s
add_round (v ∷ rest) s = elim (add_worker s.graph v) [
  | ok g ↦ add_round rest (record s { graph = g })
  | err e ↦ deferring e v (add_round rest) s
]

module _ (w : World) where
  unfoldable pub reattach_orphans_to_root : List Worker → M (Unit {0})
  reattach_orphans_to_root [] = pure tt
  reattach_orphans_to_root (v ∷ rest) = do
    edit (λ g. add_worker g (with_parent v []))
    upsert_worker w (with_parent v [])
    reattach_orphans_to_root rest

  -- The rounds; each but the last puts off fewer than it was given.
  unfoldable pub reload : ℕ → List Worker → M (Unit {0})
  reload zero pending = raise endless
  reload (suc fuel) [] = pure tt
  reload (suc fuel) (v ∷ rest) = do
    deferred ← add_round (v ∷ rest)
    if length deferred == length (v ∷ rest)
        then reattach_orphans_to_root deferred
        else reload fuel deferred

  -- One round over the workers of a chart file, each stored as it is added.
  unfoldable pub declare_round : List Worker → M (List Worker)
  unfolding deferring
  declare_round [] s = pure [] s
  declare_round (v ∷ rest) s = elim (add_worker s.graph v) [
    | ok g ↦ (upsert_worker w v >> declare_round rest) (record s { graph = g })
    | err e ↦ deferring e v (declare_round rest) s
  ]

  -- A round that puts everything off has made no progress.
  unfoldable pub declare : ℕ → List Worker → M (Unit {0})
  declare zero pending = raise endless
  declare (suc fuel) [] = pure tt
  declare (suc fuel) (v ∷ rest) = do
    deferred ← declare_round (v ∷ rest)
    if length deferred == length (v ∷ rest)
        then raise (chart parent_not_found)
        else declare fuel deferred

  -- `declared` is the file's workers, which are read only where the store has none.
  unfoldable pub load_graph : List Worker → M (Unit {0})
  load_graph declared = do
    rows ← gets (λ s. map (λ e. e.1) s.rows)
    if length rows == 0
        then declare (suc (length declared)) declared
        else reload (suc (length rows)) rows
