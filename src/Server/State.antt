-- ===== src/Server/State.antt =====
-- The state that the operations of internal/server/server.go change, and how they change it: the
-- chart in memory, the rows of the store, and the envelopes handed to the messaging backend.
-- What was done before an error stays done, so the state comes back beside the error too.
use robotdreams.Base.{
  ℕ, suc, Text, Assoc, insert, erase, lookup, Bool, Option, none, some, List, [], ◌∷◌, ◌++◌, Result,
  ok, err, if◌then◌else◌,
}
use robotdreams.Messaging.{Envelope}
use robotdreams.Orgchart.Graph.{Graph, Worker}
use robotdreams.Orgchart.Graph
use robotdreams.Server.Schedules.{Schedule}
use robotdreams.Auth.Revocation.{RevocationStore, revoke}
use robotdreams.Updates.Store.{UpdateStore, delete_worker_update_state}

-- A row of internal/server/store/apps.go, without the worker's id that it is stored under.
pub record WorkerApp : Type 0 where
  pub url : Text
  pub description : Text
  pub declared_at : ℕ

pub record Server : Type 0 where
  pub graph : Graph
  pub rows : Assoc Worker
  pub revoked : RevocationStore
  pub schedules : Assoc Schedule
  pub updates : UpdateStore
  pub apps : Assoc WorkerApp
  pub sent : List Envelope
  pub minted : ℕ

-- The errors that callers tell apart. `endless` is a climb in the chart that does not end.
pub data ServerError : Type 0 where
  chart : Graph.Error → ServerError
  not_authorized no_escalation_target invalid_message store_failed send_failed endless : ServerError

-- A call of the store or of the messaging backend.
pub data Call : Type 0 where
  upserts deletes drops_updates drops_app revokes unschedules marks sends : Text → Call

-- What the body of a notice says; the JSON of it is a parameter.
pub data Notice : Type 0 where
  reassigned : (worker_id old_parent new_parent reassigned_by : Text) → Notice
  role_changed : (worker_id old_role new_role changed_by : Text) → Notice
  deleted : (worker_id : Text) (removed reparented : List Text) (reports_to reason : Text) → Notice

-- What the code does not implement: the clock's reading, fresh ids (`minted` counts them),
-- JSON, and which calls of the store and of the backend fail.
pub record World : Type 0 where
  pub now : ℕ
  pub new_id : ℕ → Text
  pub encode : Notice → Text
  pub fails : Call → Bool

abbrev pub M {ℓ} : Type ℓ → Type ℓ
M A = Server → Result ServerError A × Server

abbrev pub continue {ℓ} :
    {A B : Type ℓ} → Result ServerError A × Server → (A → M B) → Result ServerError B × Server
continue (ok a, s) f = f a s
continue (err e, s) f = (err e, s)

infixl 5 ◌>>=◌ ◌>>◌
unfoldable pub ◌>>=◌ {ℓ} : {A B : Type ℓ} → M A → (A → M B) → M B
◌>>=◌ m f s = continue (m s) f

abbrev pub ◌>>◌ {ℓ} : {A B : Type ℓ} → M A → M B → M B
m >> n = m >>= λ _. n

unfoldable pub pure {ℓ} : {A : Type ℓ} → A → M A
pure a s = (ok a, s)

unfoldable pub raise {ℓ} : {A : Type ℓ} → ServerError → M A
raise e s = (err e, s)

unfoldable pub gets : {A : Type 0} → (Server → A) → M A
gets f s = (ok (f s), s)

-- A read of the chart that may fail.
unfoldable pub read : {A : Type 0} → (Graph → Result Graph.Error A) → M A
read f s = elim (f s.graph) [ ok a ↦ (ok a, s) | err e ↦ (err (chart e), s) ]

-- A read that climbs or descends, whose loop may not end.
unfoldable pub read_climbing : {A : Type 0} → (Graph → Option (Result Graph.Error A)) → M A
read_climbing f s = elim (f s.graph) [
  | none ↦ (err endless, s)
  | some r ↦ elim r [ ok a ↦ (ok a, s) | err e ↦ (err (chart e), s) ]
]

-- A change of the chart that may be refused.
unfoldable pub edit : (Graph → Result Graph.Error Graph) → M (Unit {0})
edit f s = elim (f s.graph) [ ok g ↦ (ok tt, record s { graph = g }) | err e ↦ (err (chart e), s) ]

-- The same for Reassign, whose climb may not end.
unfoldable pub edit_climbing : (Graph → Option (Result Graph.Error Graph)) → M (Unit {0})
edit_climbing f s = elim (f s.graph) [
  | none ↦ (err endless, s)
  | some r ↦ elim r [ ok g ↦ (ok tt, record s { graph = g }) | err e ↦ (err (chart e), s) ]
]

module _ (w : World) where
  unfoldable pub upsert_worker : Worker → M (Unit {0})
  upsert_worker v s =
      if w.fails (upserts v.id)
      then (err store_failed, s)
      else (ok tt, record s { rows = insert v.id v s.rows })

  -- `DELETE FROM workers`
  unfoldable pub drop_row : Text → M (Unit {0})
  drop_row id s =
      if w.fails (deletes id)
      then (err store_failed, s)
      else (ok tt, record s { rows = erase id s.rows })

  unfoldable pub drop_updates : Text → M (Unit {0})
  unfolding delete_worker_update_state
  drop_updates id s =
      if w.fails (drops_updates id)
      then (err store_failed, s)
      else (ok tt, record s { updates = delete_worker_update_state id s.updates })

  unfoldable pub delete_worker_app : Text → M (Unit {0})
  delete_worker_app id s =
      if w.fails (drops_app id)
      then (err store_failed, s)
      else (ok tt, record s { apps = erase id s.apps })

  -- The store's DeleteWorker: the worker's row, what it said of updates, and its app.
  unfoldable pub delete_row : Text → M (Unit {0})
  unfolding drop_row drop_updates delete_worker_app
  delete_row id = do drop_row id; drop_updates id; delete_worker_app id

  unfoldable pub revoke_worker : Text → Text → M (Unit {0})
  revoke_worker id reason s =
      if w.fails (revokes id)
      then (err store_failed, s)
      else (ok tt, record s { revoked = revoke s.revoked w.now id reason })

  unfoldable pub delete_schedule : Text → M (Unit {0})
  delete_schedule id s =
      if w.fails (unschedules id) then (err store_failed, s) else elim (lookup id s.schedules) [
        | none ↦ (err store_failed, s)
        | some _ ↦ (ok tt, record s { schedules = erase id s.schedules })
      ]

  -- `s.messaging.Emit`
  unfoldable pub send : Envelope → M (Unit {0})
  send env s =
      if w.fails (sends env.to)
      then (err send_failed, s)
      else (ok tt, record s { sent = s.sent ++ env ∷ [] })

  -- `NewID()`
  unfoldable pub next_id : M Text
  next_id s = (ok (w.new_id s.minted), record s { minted = suc s.minted })
