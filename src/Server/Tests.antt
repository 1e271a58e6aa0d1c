-- ===== src/Server/Tests.antt =====
-- The theorems of this part at a server with a lead and an engineer.
use robotdreams.Base.{
  order_by, insert_by, In, ℕ, ◌+◌, ◌<◌, ◌≡◌, ◌≢◌, refl, Text, codes, eqb, lookup, insert, erase,
  arith, [], ◌∷◌, some, none, true, false, err, subst, eqb_iff, trim_space, trim_left, trim_right,
  Assoc,
}
use robotdreams.Messaging.{Envelope, completed_work}
use robotdreams.Orgchart.Graph.{
  remove, children, workers, Graph, Worker, connected, add_worker, reassign, with_parent,
}
use robotdreams.Orgchart.Graph
use robotdreams.Orgchart.Graph.Forest.{IsForest, new_graph-IsForest}
use robotdreams.Orgchart.Graph.Edits.{add_worker-IsForest}
use robotdreams.Server.Schedules.{list, rows, Schedule, Cron, list_due, parse_cron}
use robotdreams.Server.Schedules.Due.{Keyed}
use robotdreams.Server.State.{
  edit, delete_row, revoke_worker, delete_schedule, gets, drop_row, drop_updates, delete_worker_app,
  WorkerApp, Server, World, ◌>>=◌, pure, read, edit_climbing, upsert_worker, send, next_id, endless,
}
use robotdreams.Updates.Store.{WorkerUpdateState, delete_worker_update_state}
use robotdreams.Server.Routing.{
  emit_from_worker, route, stamp, recipient, dispatch, named_or_parent,
}
use robotdreams.Server.Routing.Delivery.{Delivered, emit_from_worker-Delivered}
use robotdreams.Server.Workers.History.{
  ServerReachable, loaded, linked, shifted, ServerReachable-IsForest,
}
use robotdreams.Server.Workers.{connect_worker, touch_worker, reassign_worker, announce, notice}
use robotdreams.Server.Workers.Rows.{reassign_worker-touch_worker}
use robotdreams.Server.Deletion.{
  delete_worker, depart, remove_all, reparent_all, delete_worker_schedules, delete_all,
}
use robotdreams.Server.Deletion.Sweep.{Gone}
use robotdreams.Server.Deletion.Departed.{delete_worker-Gone}
use robotdreams.Server.Reload.{load_graph}
use robotdreams.Server.Reload.Rounds.{load_graph_ends}
use robotdreams.Server.Scheduler.{tick, next_after, tick_all, tick_one}
use robotdreams.Server.Scheduler.Rounds.{tick-none_due}

abbrev worker_at : Text → Text → Worker
worker_at i p = record {
  id = i;
  role = codes "ic";
  reports_to = p;
  public_key = [];
  connected_at = 1;
  last_seen_at = 1;
  status = connected;
  metadata = [];
}

abbrev lead : Worker
lead = worker_at (codes "lead") []

abbrev engineer : Worker
engineer = worker_at (codes "eng") (codes "lead")

abbrev lead_only : Graph
lead_only = insert (codes "lead") lead []

abbrev chart : Graph
chart = insert (codes "eng") engineer lead_only

lead_only-IsForest : IsForest lead_only
unfolding add_worker lookup eqb
lead_only-IsForest = add_worker-IsForest new_graph-IsForest lead lead_only refl

chart-IsForest : IsForest chart
unfolding add_worker lookup insert eqb
chart-IsForest = add_worker-IsForest lead_only-IsForest engineer chart refl

abbrev schedule : Schedule
schedule = record {
  id = codes "daily";
  owner = codes "lead";
  to = codes "eng";
  cron = codes "@daily";
  subject = codes "report";
  body = [];
  enabled = true;
  next_at = 50;
  last_at = none;
  created_at = 1;
}

abbrev schedules : Assoc Schedule
schedules = (codes "daily", schedule) ∷ []

abbrev said : WorkerUpdateState
said = record {
  worker_id = codes "eng";
  kind = codes "cli";
  current_version = codes "1";
  announcement_id = [];
  target_version = [];
  status = [];
  detail = [];
  reported_at = 5;
}

abbrev app : WorkerApp
app = record { url = codes "http://eng"; description = []; declared_at = 5 }

abbrev server : Server
server = record {
  graph = chart;
  rows = (codes "eng", engineer) ∷ (codes "lead", lead) ∷ [];
  revoked = [];
  schedules = schedules;
  sent = [];
  updates = record { announcements = []; states = said ∷ [] };
  apps = (codes "eng", app) ∷ [];
  minted = 0;
}

abbrev blank : Server
blank = record server { graph = [] }

abbrev world : World
world = record {
  now = 100;
  new_id = λ n. codes "fresh";
  encode = λ n. codes "body";
  fails = λ c. false;
}

abbrev finished : Envelope
finished = record {
  id = codes "m1";
  type = completed_work;
  from = [];
  to = [];
  subject = codes "done";
  body = [];
  storage_ptr = none;
  created_at = 7;
  causation_id = [];
}

abbrev delivered : Envelope
delivered = record finished { from = codes "eng"; to = codes "lead" }

emit_from_worker-Delivered_example :
    Delivered (codes "eng") finished server delivered (record server { sent = delivered ∷ [] })
unfolding emit_from_worker route stamp recipient dispatch named_or_parent lookup insert erase eqb
    read pure send ◌>>=◌ Graph.get Graph.escalation_target
emit_from_worker-Delivered_example =
    emit_from_worker-Delivered world (codes "eng") finished delivered server
      (record server { sent = delivered ∷ [] }) chart-IsForest refl

abbrev touched : Server
touched = (touch_worker world (codes "eng") server).1

abbrev moved : Server → Server
moved s = (reassign_worker world (codes "eng") [] (codes "eng") false s).1

reassign_worker-touch_worker_example :
    (lookup (codes "eng") touched.rows
      ≡ some (record engineer { last_seen_at = 100; status = connected }))
    × (lookup (codes "eng") (moved touched).rows ≡ some (with_parent engineer []))
unfolding touch_worker reassign_worker edit_climbing reassign upsert_worker announce notice next_id
    lookup insert erase eqb read pure send ◌>>=◌ Graph.get
reassign_worker-touch_worker_example =
    reassign_worker-touch_worker world world (codes "eng") [] (codes "eng") false server touched
      (moved touched) engineer refl refl refl refl

load_graph_ends_example : (load_graph world [] blank).0 ≢ err endless
load_graph_ends_example = load_graph_ends world [] blank

-- Every expression parses, and the next time is ten later.
abbrev cron : Cron
cron e = some (λ t. t + 10)

cron_later : (e : Text) (next : ℕ → ℕ) (t : ℕ) → cron e ≡ some next → next t ≢ 0 → t < next t
cron_later e next t h n = let p : (λ t. t + 10) ≡ next = cc in subst (λ f. t < f t) p (omega arith)

schedules-Keyed : Keyed schedules
unfolding lookup
schedules-Keyed k s h = ground (arith, eqb_iff (codes "daily") k)

abbrev idle : Schedule
idle = record schedule { cron = [] }

abbrev idle_server : Server
idle_server = record server { schedules = (codes "daily", idle) ∷ [] }

idle-Keyed : Keyed idle_server.schedules
unfolding lookup
idle-Keyed k s h = ground (arith, eqb_iff (codes "daily") k)

tick-none_due_example : next_after cron idle 60 ≡ none
unfolding tick list_due order_by insert_by rows tick_all tick_one next_after parse_cron trim_space
    trim_left trim_right lookup eqb
tick-none_due_example =
    tick-none_due world cron 60 cron_later (λ id. refl) idle_server (codes "daily") idle idle-Keyed
      refl refl

abbrev after_deletion : Server
after_deletion = (delete_worker world (codes "eng") [] false server).1

delete_worker-Gone_example :
    In (codes "eng") (codes "eng" ∷ [])
    × ((j : Text) → In j (codes "eng" ∷ []) → Gone j after_deletion)
unfolding delete_worker depart remove_all reparent_all delete_worker_schedules delete_all remove
    list order_by insert_by rows children workers read edit delete_row drop_row drop_updates
    delete_worker_app delete_worker_update_state revoke_worker delete_schedule gets announce notice
    next_id lookup insert erase eqb pure send ◌>>=◌ Graph.get
delete_worker-Gone_example =
    delete_worker-Gone world (codes "eng") [] false (codes "eng" ∷ []) server after_deletion
      schedules-Keyed refl

-- The stored workers are loaded, a tester connects, and the engineer moves to the root.
ServerReachable-IsForest_example :
    let s1 = (load_graph world [] blank).1 in
    let s2 = (connect_worker world (worker_at (codes "qa") (codes "eng")) true s1).1 in
    IsForest (reassign_worker world (codes "eng") [] (codes "eng") false s2).1.graph
ServerReachable-IsForest_example = ServerReachable-IsForest (
    shifted world (codes "eng") [] (codes "eng") false (
      linked world (worker_at (codes "qa") (codes "eng")) true
        (loaded world [] (ServerReachable.blank {s = blank} refl))))
