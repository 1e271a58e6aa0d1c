-- ===== src/Orgchart/Graph/History.antt =====
-- The charts that the methods of internal/orgchart/graph.go can lead to.
use robotdreams.Base.{◌≡◌, ◌≢◌, Text, lookup, some, ok, []}
use robotdreams.Orgchart.Graph.{Graph, Worker, add_worker, reassign, set_role, remove}
use robotdreams.Orgchart.Graph.Forest.{IsForest, new_graph-IsForest}
use robotdreams.Orgchart.Graph.Edits.{
  add_worker-IsForest, reassign-IsForest, set_role-IsForest, remove-IsForest,
}

-- One accepted call. Nobody reports to a worker that is removed.
pub data Step : Graph → Graph → Type 0 where
  added : {g g' : Graph} → (w : Worker) → add_worker g w ≡ ok g' → Step g g'
  moved : {g g' : Graph} → (k p : Text) → reassign g k p ≡ some (ok g') → Step g g'
  recast : {g g' : Graph} → (k role : Text) → set_role g k role ≡ ok g' → Step g g'
  removed :
      {g g' : Graph}
      → (k : Text) → ((j : Text) (w : Worker) → lookup j g ≡ some w → w.reports_to ≢ k)
      → remove g k ≡ ok g'
      → Step g g'

pub data Reachable : Graph → Type 0 where
  fresh : Reachable []
  next : {g g' : Graph} → Reachable g → Step g g' → Reachable g'

Step-IsForest : {g g' : Graph} → Step g g' → IsForest g → IsForest g'
Step-IsForest {g' = g'} (added w e) f = add_worker-IsForest f w g' e
Step-IsForest {g' = g'} (moved k p e) f = reassign-IsForest f k p g' e
Step-IsForest {g' = g'} (recast k role e) f = set_role-IsForest f k role g' e
Step-IsForest {g' = g'} (removed k leaf e) f = remove-IsForest f k g' leaf e

-- Whatever calls of AddWorker, Reassign and SetRole are accepted on an empty chart, and of Remove
-- for workers to whom nobody reports, in whatever order, the chart is a forest of registered
-- workers.
pub Reachable-IsForest : {g : Graph} → Reachable g → IsForest g
Reachable-IsForest fresh = new_graph-IsForest
Reachable-IsForest (next r s) = Step-IsForest s (Reachable-IsForest r)
