-- ===== src/Server/Workers/Authority.antt =====
-- Who may change a worker, in internal/server/server.go.
use robotdreams.Base.{
  ◌≡◌, ◌≢◌, ◌⊎◌, Text, Bool, true, false, eqb, some, err, arith, eqb_iff, lookup, List, [], ◌∷◌,
  ◌++◌, codes, if◌then◌else◌,
}
use robotdreams.Orgchart.Graph.{Graph, Worker}
use robotdreams.Orgchart.Graph
use robotdreams.Server.State.{
  reassigned, not_authorized, ◌>>◌, Server, World, M, ◌>>=◌, raise, read, upsert_worker,
}
use robotdreams.Server.Keeps.{Keeps}
use robotdreams.Server.Workers.{set_worker_role, announce, present, author}

-- The caller is the worker, its manager, or an admin.
abbrev pub Authorized : Worker → Text → Text → Bool → Type 0
Authorized v k caller admin = (caller ≡ k) ⊎ ((caller ≡ v.reports_to) ⊎ (admin ≡ true))

-- The chart is this one, and no worker was revoked and no schedule changed.
abbrev pub Stands : Graph → Server → Server → Type 0
Stands g s s' = (s'.graph ≡ g) × (s'.revoked ≡ s.revoked) × (s'.schedules ≡ s.schedules)

module _ (w : World) where
  -- What ReassignWorker does once the chart is changed.
  record_move : Text → Text → Text → List Text → M (Unit {0})
  record_move k subject body to =
      read (λ g. Graph.get g k) >>= λ updated. upsert_worker w updated >> announce w subject body to

  moved_notice : Text → Text → Text → Worker → M (Unit {0})
  moved_notice k p caller v =
      record_move k (codes "worker reassigned")
        (w.encode (reassigned k v.reports_to p (author caller)))
        (k ∷ present v.reports_to ++ (if eqb p v.reports_to then [] else present p))

  -- A caller who is neither the worker, nor its manager, nor an admin cannot change a worker's role
  -- either: the call is refused, and nothing changes.
  pub set_worker_role_refuses :
      (worker_id role caller : Text) (s : Server) (v : Worker)
      → lookup worker_id s.graph ≡ some v
      → caller ≢ worker_id
      → caller ≢ v.reports_to
      → set_worker_role w worker_id role caller false s ≡ (err not_authorized, s)
  unfolding set_worker_role ◌>>=◌ read raise Graph.get
  set_worker_role_refuses worker_id role caller s v h ni np =
      ground (arith, eqb_iff caller worker_id, eqb_iff caller v.reports_to)
