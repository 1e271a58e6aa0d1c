-- ===== src/Server/Workers.antt =====
-- ConnectWorker, TouchWorker, ReassignWorker and SetWorkerRole of internal/server/server.go.
pub mod Authority
pub mod Notices
pub mod Shape
pub mod Rows
pub mod History
use robotdreams.Base.{
  Text, codes, is_empty, eqb, Bool, not, ◌&&◌, none, List, [], ◌∷◌, ◌++◌, if◌then◌else◌, ◌==◌,
}
use robotdreams.Messaging.{Envelope, status_update}
use robotdreams.Orgchart.Graph.{Worker, connected, invalid_worker, add_worker, reassign, set_role}
use robotdreams.Orgchart.Graph
use robotdreams.Auth.Delegation.{validate_worker_id}
use robotdreams.Server.State.{
  World, reassigned, role_changed, M, ◌>>=◌, ◌>>◌, pure, raise, read, edit, edit_climbing,
  upsert_worker, send, next_id, chart, not_authorized,
}

abbrev pub control_worker_id : Text
control_worker_id = codes "server"

-- A worker's status is "" on the wire where `reported` is false.
unfoldable pub filled : World → Worker → Bool → Worker
filled w v reported = record v {
  status = if reported then v.status else connected;
  connected_at = if v.connected_at == 0 then w.now else v.connected_at;
  last_seen_at = if v.last_seen_at == 0 then w.now else v.last_seen_at;
}

-- The worker itself, its parent, or an admin.
abbrev pub may_edit : Worker → Text → Text → Bool → Bool
may_edit current worker_id caller admin =
    not (not admin && (not (eqb caller worker_id) && not (eqb caller current.reports_to)))

abbrev pub author : Text → Text
author caller = if is_empty caller then control_worker_id else caller

abbrev pub present : Text → List Text
present k = if is_empty k then [] else k ∷ []

module _ (w : World) where
  unfoldable pub notice : Text → Text → Text → Text → Envelope
  notice subject body id to = record {
    id = id;
    type = status_update;
    from = control_worker_id;
    to = to;
    subject = subject;
    body = body;
    storage_ptr = none;
    created_at = w.now;
    causation_id = [];
  }

  -- The loop over the recipients that ends each operation.
  unfoldable pub announce : Text → Text → List Text → M (Unit {0})
  announce subject body [] = pure tt
  announce subject body (to ∷ rest) = do
    id ← next_id w
    send w (notice subject body id to)
    announce subject body rest

  unfoldable pub connect_worker : Worker → Bool → M (Unit {0})
  connect_worker v reported =
      if validate_worker_id v.id
      then (do
        edit (λ g. add_worker g (filled w v reported))
        upsert_worker w (filled w v reported))
      else raise (chart invalid_worker)

  unfoldable pub touch_worker : Text → M (Unit {0})
  touch_worker worker_id = do
    v ← read (λ g. Graph.get g worker_id)
    upsert_worker w (record v { last_seen_at = w.now; status = connected })

  unfoldable pub reassign_worker : Text → Text → Text → Bool → M (Unit {0})
  reassign_worker worker_id new_parent caller admin = do
    current ← read (λ g. Graph.get g worker_id)
    let old_parent = current.reports_to
    if not (may_edit current worker_id caller admin) then raise not_authorized else do
      edit_climbing (λ g. reassign g worker_id new_parent)
      updated ← read (λ g. Graph.get g worker_id)
      upsert_worker w updated
      announce (codes "worker reassigned")
          (w.encode (reassigned worker_id old_parent new_parent (author caller)))
          (worker_id ∷ present old_parent
            ++ (if eqb new_parent old_parent then [] else present new_parent))

  unfoldable pub set_worker_role : Text → Text → Text → Bool → M (Unit {0})
  set_worker_role worker_id role caller admin = do
    current ← read (λ g. Graph.get g worker_id)
    let parent = current.reports_to
    if not (may_edit current worker_id caller admin)
        then raise not_authorized
        else if eqb current.role role
        then pure tt
        else do
          edit (λ g. set_role g worker_id role)
          updated ← read (λ g. Graph.get g worker_id)
          upsert_worker w updated
          announce (codes "worker role changed")
              (w.encode (role_changed worker_id current.role role (author caller)))
              (worker_id ∷ (if eqb parent worker_id then [] else present parent))
