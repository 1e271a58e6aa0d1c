-- ===== src/Updates/Tests.antt =====
-- The theorems of this part at a chart of a lead and an engineer, one of whom cannot be reached.
use robotdreams.Base.{
  ◌+◌, ◌≡◌, refl, Text, codes, eqb, lookup, In, All, length, order_by, insert_by, false, ◌&&◌, some,
  List, [], ◌∷◌, cut, contains_byte,
}
use robotdreams.Orgchart.Graph.{Graph, Worker, workers, connected}
use robotdreams.Orgchart.Graph
use robotdreams.Updates.{
  Announcement, UpdateReport, Pending, Rollout, is_kind, is_kind_part, is_status, is_severity,
  parse_announcement, status_applied,
}
use robotdreams.Updates.Store.{
  UpdateStore, insert_update_announcement, upsert_worker_update_state, put_state,
  prune_update_announcements, state_of, list_update_announcements,
}
use robotdreams.Updates.Fleet.{
  Surroundings, Broadcast, announce_update, record_update_state, reported_state,
  pending_updates_for, pending_from, update_rollout, rollout_of, stamped, broadcast, workers_by_id,
}
use robotdreams.Updates.Fleet.Reach.{
  announce_update-IsToldOrMissed, announce_update-parse_announcement, update_rollout-IsCounted,
  IsToldOrMissed, IsCounted,
}
use robotdreams.Updates.Fleet.Resolved.{pending_updates_for-record_update_state}

abbrev worker_at : Text → Text → Worker
worker_at i p = record {
  id = i;
  role = codes "ic";
  reports_to = p;
  public_key = [];
  connected_at = 1;
  last_seen_at = 2;
  status = connected;
  metadata = [];
}

abbrev chart : Graph
chart =
    (codes "lead", worker_at (codes "lead") [])
    ∷ (codes "eng", worker_at (codes "eng") (codes "lead"))
    ∷ []

abbrev wanted : Announcement
wanted = record {
  id = [];
  kind = codes "acme/tool";
  version = codes "2";
  source = [];
  min_version = [];
  severity = [];
  notes = [];
  announced_by = [];
  announced_at = 0;
}

-- Only the engineer can be reached.
abbrev around : Surroundings
around = record {
  now = 10;
  new_id = λ n. codes "n";
  encode = λ a. a.version;
  takes = λ e. eqb e.to (codes "eng");
}

abbrev announced : Announcement
announced = stamped around wanted (codes "lead")

abbrev empty_store : UpdateStore
empty_store = record { announcements = []; states = [] }

abbrev store : UpdateStore
store = record { announcements = announced ∷ []; states = [] }

abbrev told : Broadcast
told = broadcast around announced 1 (workers_by_id chart)

announce_update-IsToldOrMissed_example :
    ((v : Worker) → In v (workers chart) → IsToldOrMissed around announced told v)
    × (length told.delivered + length told.missed ≡ length (workers chart))
unfolding announce_update insert_update_announcement prune_update_announcements order_by insert_by
    is_kind is_kind_part is_severity eqb cut contains_byte
announce_update-IsToldOrMissed_example =
    announce_update-IsToldOrMissed around chart wanted announced (codes "lead") empty_store store
      told refl

announce_update-parse_announcement_example :
    All (λ e. parse_announcement (λ t. some announced) e ≡ some announced) told.delivered
unfolding announce_update insert_update_announcement prune_update_announcements order_by insert_by
    is_kind is_kind_part is_severity eqb cut contains_byte
announce_update-parse_announcement_example =
    announce_update-parse_announcement around (λ t. some announced) chart wanted announced
      (codes "lead") empty_store store told refl refl

abbrev applied : UpdateReport
applied = record {
  kind = codes "acme/tool";
  announcement_id = codes "n";
  status = status_applied;
  current_version = codes "2";
  target_version = codes "2";
  detail = [];
}

abbrev later : UpdateStore
later = record store { states = reported_state 20 (codes "eng") applied ∷ [] }

abbrev left : List Pending
left = []

pending_updates_for-record_update_state_example :
    All
      (λ p.
        (eqb p.announcement.kind applied.kind && eqb p.announcement.id applied.announcement_id)
        ≡ false)
      left
unfolding record_update_state upsert_worker_update_state put_state pending_updates_for pending_from
    list_update_announcements order_by insert_by state_of is_kind is_kind_part is_status eqb cut
    contains_byte lookup Graph.get
pending_updates_for-record_update_state_example =
    pending_updates_for-record_update_state 20 chart (codes "eng") applied store later left refl
      refl refl refl

abbrev rollout : Rollout
rollout = rollout_of (codes "acme/tool") (some announced) (codes "n") chart later

update_rollout-IsCounted_example : IsCounted chart rollout
unfolding update_rollout is_kind is_kind_part eqb cut contains_byte list_update_announcements
    order_by insert_by
update_rollout-IsCounted_example =
    update_rollout-IsCounted (codes "acme/tool") [] chart later rollout refl
