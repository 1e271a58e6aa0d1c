-- ===== src/Server/Workers/History.antt =====
-- The states that the operations of internal/server/server.go on one worker can lead to.
use robotdreams.Base.{◌≡◌, Text, Bool, List, [], sym, subst}
use robotdreams.Orgchart.Graph.{Worker}
use robotdreams.Orgchart.Graph.Forest.{IsForest, new_graph-IsForest}
use robotdreams.Server.State.{Server, World}
use robotdreams.Server.Workers.{connect_worker, reassign_worker, set_worker_role}
use robotdreams.Server.Workers.Shape.{
  connect_worker-IsForest, reassign_worker-IsForest, set_worker_role-IsForest,
}
use robotdreams.Server.Reload.{load_graph}
use robotdreams.Server.Reload.Rebuild.{load_graph-IsForest}

-- One call, with the world that it meets: its time, and which of its calls of others fail. The
-- call may fail; a state may be a start with an empty chart, or one that was stored and is loaded.
pub data ServerReachable : Server → Type 0 where
  blank : {s : Server} → s.graph ≡ [] → ServerReachable s
  loaded :
      {s : Server}
      → (w : World) (declared : List Worker) → ServerReachable s
      → ServerReachable (load_graph w declared s).1
  linked :
      {s : Server}
      → (w : World) (v : Worker) (reported : Bool) → ServerReachable s
      → ServerReachable (connect_worker w v reported s).1
  shifted :
      {s : Server}
      → (w : World) (k p caller : Text) (admin : Bool) → ServerReachable s
      → ServerReachable (reassign_worker w k p caller admin s).1
  recast :
      {s : Server}
      → (w : World) (k role caller : Text) (admin : Bool) → ServerReachable s
      → ServerReachable (set_worker_role w k role caller admin s).1

-- From an empty chart, after any loads of stored or declared workers and any calls of ConnectWorker,
-- ReassignWorker and SetWorkerRole, accepted or not and whichever calls of the store and of the
-- messaging backend fail, the chart is a forest of registered workers.
pub ServerReachable-IsForest : {s : Server} → ServerReachable s → IsForest s.graph
ServerReachable-IsForest (blank e) = subst IsForest (sym e) new_graph-IsForest
ServerReachable-IsForest (loaded {s = s} w declared r) =
    load_graph-IsForest w declared s (ServerReachable-IsForest r)
ServerReachable-IsForest (linked {s = s} w v reported r) =
    connect_worker-IsForest w v reported s (ServerReachable-IsForest r)
ServerReachable-IsForest (shifted {s = s} w k p caller admin r) =
    reassign_worker-IsForest w k p caller admin s (ServerReachable-IsForest r)
ServerReachable-IsForest (recast {s = s} w k role caller admin r) =
    set_worker_role-IsForest w k role caller admin s (ServerReachable-IsForest r)
