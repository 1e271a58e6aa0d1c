-- ===== src/Updates/Store.antt =====
-- internal/server/store/updates.go: the tables of announcements and of what workers said. A query that
-- fails for a reason of the database's own is left out, and so is the count of recipients, which
-- nothing reads.
use robotdreams.Base.{
  ℕ, Text, is_empty, eqb, text_ltb, any, keep, take, order_by, ltb, ◌==◌, Bool, not, ◌&&◌, ◌||◌,
  Option, none, some, List, [], ◌∷◌, ◌++◌, if◌then◌else◌,
}
use robotdreams.Updates.{Announcement}

abbrev pub update_announcement_retention : ℕ
update_announcement_retention = 50

pub record WorkerUpdateState : Type 0 where
  pub worker_id : Text
  pub kind : Text
  pub current_version : Text
  pub announcement_id : Text
  pub target_version : Text
  pub status : Text
  pub detail : Text
  pub reported_at : ℕ

pub record UpdateStore : Type 0 where
  pub announcements : List Announcement
  pub states : List WorkerUpdateState

-- ORDER BY announced_at DESC, id DESC
abbrev pub newer_first : Announcement → Announcement → Bool
newer_first a b =
    if a.announced_at == b.announced_at
    then text_ltb b.id a.id
    else ltb b.announced_at a.announced_at

abbrev pub of_kind : Text → List Announcement → List Announcement
of_kind kind anns = keep (λ a. eqb a.kind kind) anns

abbrev pub has_id : Text → List Announcement → Bool
has_id id anns = any (λ a. eqb a.id id) anns

-- The newest of a kind, as many as are retained.
abbrev pub retained : Text → List Announcement → List Announcement
retained kind anns = take update_announcement_retention (order_by newer_first (of_kind kind anns))

unfoldable pub prune_update_announcements : Text → List Announcement → List Announcement
prune_update_announcements kind anns =
    keep (λ a. not (eqb a.kind kind) || has_id a.id (retained kind anns)) anns

-- An id is the primary key; `none` is an error.
unfoldable pub insert_update_announcement : Announcement → UpdateStore → Option UpdateStore
unfolding prune_update_announcements
insert_update_announcement a s =
    if is_empty a.id || has_id a.id s.announcements
    then none
    else some
        (record s { announcements = prune_update_announcements a.kind (s.announcements ++ a ∷ []) })

unfoldable pub get_update_announcement : Text → List Announcement → Option Announcement
get_update_announcement id [] = none
get_update_announcement id (a ∷ anns) =
    let rest = get_update_announcement id anns in if eqb a.id id then some a else rest

-- An empty kind is any; a limit of 0 is none.
unfoldable pub list_update_announcements : Text → ℕ → List Announcement → List Announcement
list_update_announcements kind limit anns =
    let found = order_by newer_first (keep (λ a. is_empty kind || eqb a.kind kind) anns) in
    if limit == 0 then found else take limit found

-- What ON CONFLICT keeps of the row that is there.
abbrev pub merged_state : WorkerUpdateState → WorkerUpdateState → WorkerUpdateState
merged_state row new = record new {
  current_version =
      if is_empty new.current_version then row.current_version else new.current_version;
  announcement_id =
      if is_empty new.announcement_id then row.announcement_id else new.announcement_id;
  target_version = if is_empty new.announcement_id then row.target_version else new.target_version;
}

abbrev pub same_row : WorkerUpdateState → WorkerUpdateState → Bool
same_row a b = eqb a.worker_id b.worker_id && eqb a.kind b.kind

unfoldable pub put_state : WorkerUpdateState → List WorkerUpdateState → List WorkerUpdateState
put_state new [] = new ∷ []
put_state new (row ∷ rows) =
    let rest = put_state new rows in
    if same_row row new then merged_state row new ∷ rows else row ∷ rest

unfoldable pub upsert_worker_update_state : WorkerUpdateState → UpdateStore → Option UpdateStore
unfolding put_state
upsert_worker_update_state st s =
    if is_empty st.worker_id || is_empty st.kind
    then none
    else some (record s { states = put_state st s.states })

-- The row of a worker and a kind, which are the primary key.
unfoldable pub state_of : Text → Text → List WorkerUpdateState → Option WorkerUpdateState
state_of worker kind [] = none
state_of worker kind (row ∷ rows) =
    let rest = state_of worker kind rows in
    if eqb row.worker_id worker && eqb row.kind kind then some row else rest

unfoldable pub delete_worker_update_state : Text → UpdateStore → UpdateStore
delete_worker_update_state worker s = record s {
  states = keep (λ row. not (eqb row.worker_id worker)) s.states;
}
