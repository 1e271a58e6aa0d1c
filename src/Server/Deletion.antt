-- ===== src/Server/Deletion.antt =====
-- DeleteWorker of internal/server/server.go: a worker leaves with everybody below it, or its
-- reports move up to its own manager first.
pub mod Sweep
pub mod Departed
use robotdreams.Base.{Text, codes, is_empty, Bool, List, [], ◌∷◌, ◌++◌, map, reverse, if◌then◌else◌}
use robotdreams.Orgchart.Graph.{reassign, remove, children, descendants}
use robotdreams.Orgchart.Graph
use robotdreams.Server.State.{
  World, deleted, M, ◌>>=◌, ◌>>◌, pure, gets, read, read_climbing, edit, edit_climbing,
  upsert_worker, delete_row, revoke_worker, delete_schedule,
}
use robotdreams.Server.Schedules.{list}
use robotdreams.Server.Workers.{announce, present}

module _ (w : World) where
  unfoldable pub delete_all : List Text → M (Unit {0})
  delete_all [] = pure tt
  delete_all (id ∷ rest) = do delete_schedule w id; delete_all rest

  unfoldable pub delete_worker_schedules : Text → M (Unit {0})
  delete_worker_schedules worker_id = do
    owned ← gets (λ s. list (record { owner = []; to = []; worker = worker_id }) s.schedules)
    delete_all (map (λ sc. sc.id) owned)

  -- The loop that moves the reports up.
  unfoldable pub reparent_all : Text → List Text → M (Unit {0})
  reparent_all parent [] = pure tt
  reparent_all parent (id ∷ rest) = do
    edit_climbing (λ g. reassign g id parent)
    moved ← read (λ g. Graph.get g id)
    upsert_worker w moved
    reparent_all parent rest

  -- The loop that takes the workers out.
  unfoldable pub remove_all : Text → List Text → M (Unit {0})
  remove_all reason [] = pure tt
  remove_all reason (id ∷ rest) = do
    edit (λ g. remove g id)
    delete_row w id
    revoke_worker w id reason
    delete_worker_schedules id
    remove_all reason rest

  -- Who goes, deepest first, and who is moved up.
  unfoldable pub depart : Text → Text → Bool → M (List Text × List Text)
  depart worker_id parent cascade =
      if cascade
      then (do
        below ← read_climbing (λ g. descendants g worker_id)
        pure (reverse (map (λ v. v.id) below) ++ worker_id ∷ [], []))
      else (do
        reports ← read (λ g. children g worker_id)
        reparent_all parent (map (λ v. v.id) reports)
        pure (worker_id ∷ [], map (λ v. v.id) reports))

  unfoldable pub delete_worker : Text → Text → Bool → M (List Text)
  delete_worker worker_id reason cascade = do
    target ← read (λ g. Graph.get g worker_id)
    plan ← depart worker_id target.reports_to cascade
    let why = if is_empty reason then codes "worker deleted" else reason
    remove_all why plan.0
    announce w (codes "worker deleted")
        (w.encode (deleted worker_id plan.0 plan.1 target.reports_to why))
        (plan.1 ++ present target.reports_to)
    pure plan.0
