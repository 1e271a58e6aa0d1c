-- ===== src/Updates/Fleet.antt =====
-- internal/server/updates.go: announcing a version to the chart, and how far it has come.
pub mod Reach
pub mod Resolved
use robotdreams.Base.{
  ℕ, suc, ◌+◌, Text, Assoc, is_empty, eqb, text_ltb, lookup, insert, map, order_by, Bool, false,
  not, ◌&&◌, ◌||◌, Option, none, some, List, [], ◌∷◌, Result, ok, err, if◌then◌else◌, any,
}
use robotdreams.Messaging.{Envelope, status_update}
use robotdreams.Orgchart.Graph.{Graph, Worker, workers}
use robotdreams.Orgchart.Graph
use robotdreams.Server.Workers.{control_worker_id}
use robotdreams.Updates.{
  Announcement, UpdateReport, Pending, RolloutNode, Rollout, is_kind, is_status, is_severity,
  subject_update_available, status_unknown, status_applied, status_declined,
}
use robotdreams.Updates.Store.{
  UpdateStore, WorkerUpdateState, insert_update_announcement, upsert_worker_update_state,
  get_update_announcement, list_update_announcements, state_of,
}

pub data UpdateError : Type 0 where
  invalid_update store_failed announcement_unknown : UpdateError
  no_worker : Graph.Error → UpdateError

-- The clock's reading, fresh ids, JSON, and which envelopes the messaging backend takes.
pub record Surroundings : Type 0 where
  pub now : ℕ
  pub new_id : ℕ → Text
  pub encode : Announcement → Text
  pub takes : Envelope → Bool

unfoldable pub workers_by_id : Graph → List Worker
unfolding workers
workers_by_id g = order_by (λ a b. text_ltb a.id b.id) (workers g)

-- The envelopes that were taken, and the workers to whom none went out.
pub record Broadcast : Type 0 where
  pub delivered : List Envelope
  pub missed : List Text

abbrev pub announcement_envelope : Surroundings → Announcement → ℕ → Worker → Envelope
announcement_envelope w ann n v = record {
  id = w.new_id n;
  type = status_update;
  from = control_worker_id;
  to = v.id;
  subject = subject_update_available;
  body = w.encode ann;
  storage_ptr = none;
  created_at = w.now;
  causation_id = [];
}

unfoldable pub broadcast : Surroundings → Announcement → ℕ → List Worker → Broadcast
broadcast w ann n [] = record { delivered = []; missed = [] }
broadcast w ann n (v ∷ vs) =
    let rest = broadcast w ann (suc n) vs in
    let env = announcement_envelope w ann n v in
    if w.takes env
    then record rest { delivered = env ∷ rest.delivered }
    else record rest { missed = v.id ∷ rest.missed }

abbrev pub stamped : Surroundings → Announcement → Text → Announcement
stamped w ann by = record ann {
  id = w.new_id 0;
  announced_at = w.now;
  announced_by = if is_empty by then control_worker_id else by;
}

-- The store after it, and the announcement with what became of it. A failed send is no error of the
-- others.
unfoldable pub announce_update :
    Surroundings
    → Graph
    → Announcement
    → Text
    → UpdateStore
    → Result UpdateError (Announcement × Broadcast) × UpdateStore
unfolding is_kind is_severity insert_update_announcement broadcast workers_by_id
announce_update w g ann by s =
    let full = stamped w ann by in
    if not (is_kind ann.kind) || (is_empty ann.version || not (is_severity ann.severity))
    then (err invalid_update, s)
    else elim (insert_update_announcement full s) [
      | none ↦ (err store_failed, s)
      | some s' ↦ (ok (full, broadcast w full 1 (workers_by_id g)), s')
    ]

abbrev pub reported_state : ℕ → Text → UpdateReport → WorkerUpdateState
reported_state now worker_id rep = record {
  worker_id = worker_id;
  kind = rep.kind;
  current_version = rep.current_version;
  announcement_id = rep.announcement_id;
  target_version = rep.target_version;
  status = rep.status;
  detail = rep.detail;
  reported_at = now;
}

unfoldable pub record_update_state :
    ℕ → Graph → Text → UpdateReport → UpdateStore → Result UpdateError UpdateStore
unfolding is_kind is_status upsert_worker_update_state Graph.get
record_update_state now g worker_id rep s =
    if is_empty worker_id then err invalid_update else elim (Graph.get g worker_id) [
      | err e ↦ err (no_worker e)
      | ok v ↦
          if not (is_kind rep.kind) || not (is_status rep.status)
          then err invalid_update
          else elim (upsert_worker_update_state (reported_state now worker_id rep) s) [
            | none ↦ err store_failed
            | some s' ↦ ok s'
          ]
    ]

unfoldable pub latest_update_announcements :
    Text → ℕ → UpdateStore → Result UpdateError (List Announcement)
unfolding is_kind list_update_announcements
latest_update_announcements kind limit s =
    if not (is_empty kind) && not (is_kind kind)
    then err invalid_update
    else ok (list_update_announcements kind limit s.announcements)

abbrev silent_node : Worker → Text → RolloutNode
silent_node v kind = record {
  worker_id = v.id;
  worker_status = v.status;
  kind = kind;
  current_version = [];
  announcement_id = [];
  target_version = [];
  status = status_unknown;
  detail = [];
  reported_at = 0;
}

-- What a worker said of a kind, read for one announcement; without any id, for none in particular.
unfoldable pub rollout_node_for : Worker → Option WorkerUpdateState → Text → Text → RolloutNode
rollout_node_for v none kind announcement_id = silent_node v kind
rollout_node_for v (some st) kind announcement_id =
    if not (is_empty announcement_id) && not (eqb st.announcement_id announcement_id)
    then record (silent_node v kind) { current_version = st.current_version }
    else record {
      worker_id = v.id;
      worker_status = v.status;
      kind = kind;
      current_version = st.current_version;
      announcement_id = st.announcement_id;
      target_version = st.target_version;
      status = if is_empty st.status then status_unknown else st.status;
      detail = st.detail;
      reported_at = st.reported_at;
    }

abbrev pub count_of : Text → Assoc ℕ → ℕ
count_of status counts = elim (lookup status counts) [ none ↦ 0 | some n ↦ n ]

unfoldable pub count_statuses : Assoc ℕ → List RolloutNode → Assoc ℕ
count_statuses counts [] = counts
count_statuses counts (n ∷ ns) =
    count_statuses (insert n.status (count_of n.status counts + 1) counts) ns

unfoldable pub rollout_of : Text → Option Announcement → Text → Graph → UpdateStore → Rollout
unfolding rollout_node_for count_statuses workers_by_id state_of
rollout_of kind ann announcement_id g s =
    let nodes =
      map (λ v. rollout_node_for v (state_of v.id kind s.states) kind announcement_id)
        (workers_by_id g) in
    record { kind = kind; announcement = ann; counts = count_statuses [] nodes; nodes = nodes }

abbrev pub newest_of_kind : Text → Graph → UpdateStore → List Announcement → Rollout
newest_of_kind kind g s [] = rollout_of kind none [] g s
newest_of_kind kind g s (a ∷ anns) = rollout_of kind (some a) a.id g s

-- The rollout of an announcement, or of the newest of the kind.
unfoldable pub update_rollout : Text → Text → Graph → UpdateStore → Result UpdateError Rollout
unfolding is_kind rollout_of get_update_announcement list_update_announcements
update_rollout kind announcement_id g s =
    if not (is_kind kind)
    then err invalid_update
    else if is_empty announcement_id
    then ok (newest_of_kind kind g s (list_update_announcements kind 1 s.announcements))
    else elim (get_update_announcement announcement_id s.announcements) [
      | none ↦ err announcement_unknown
      | some a ↦ ok (rollout_of kind (some a) announcement_id g s)
    ]

abbrev pub is_resolved : Announcement → Option WorkerUpdateState → Bool
is_resolved ann none = false
is_resolved ann (some st) =
    eqb st.announcement_id ann.id && (eqb st.status status_applied || eqb st.status status_declined)

abbrev pub pending_for : Announcement → Option WorkerUpdateState → Pending
pending_for ann none = record { announcement = ann; current_version = []; status = status_unknown }
pending_for ann (some st) = record {
  announcement = ann;
  current_version = st.current_version;
  status =
      if eqb st.announcement_id ann.id && not (is_empty st.status)
      then st.status
      else status_unknown;
}

-- Of each kind the newest announcement, unless the worker is through with it.
unfoldable pub pending_from :
    Text → List WorkerUpdateState → List Text → List Announcement → List Pending
unfolding state_of
pending_from worker_id states seen [] = []
pending_from worker_id states seen (ann ∷ anns) =
    let st = state_of worker_id ann.kind states in
    let is_seen = any (λ k. eqb k ann.kind) seen in
    let rest = pending_from worker_id states (if is_seen then seen else ann.kind ∷ seen) anns in
    if is_seen || is_resolved ann st then rest else pending_for ann st ∷ rest

unfoldable pub pending_updates_for : Graph → Text → UpdateStore → Result UpdateError (List Pending)
unfolding pending_from list_update_announcements Graph.get
pending_updates_for g worker_id s = elim (Graph.get g worker_id) [
  | err e ↦ err (no_worker e)
  | ok v ↦ ok (pending_from worker_id s.states [] (list_update_announcements [] 0 s.announcements))
]
