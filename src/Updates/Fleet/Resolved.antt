-- ===== src/Updates/Fleet/Resolved.antt =====
-- What a worker said of an announcement decides what is pending for it.
use robotdreams.Base.{
  ℕ, ◌≡◌, refl, sym, ◌∙◌, ap, subst, inl, inr, arith, Bool-cases, Text, eqb, eqb_iff, eqb_refl,
  is_empty, any, Bool, true, false, ◌&&◌, ◌||◌, Option, none, some, List, [], ◌∷◌, All, All-weaken,
  ok, if◌then◌else◌,
}
use robotdreams.Orgchart.Graph.{Graph}
use robotdreams.Updates.{Announcement, UpdateReport, Pending, status_applied, status_declined}
use robotdreams.Updates.Store.{
  UpdateStore, WorkerUpdateState, upsert_worker_update_state, put_state, state_of, merged_state,
  same_row, list_update_announcements,
}
use robotdreams.Updates.Fleet.{
  record_update_state, reported_state, pending_updates_for, pending_from, is_resolved, pending_for,
}

-- A row that was put is found, with the status and the announcement that were put.
abbrev Said : WorkerUpdateState → Option WorkerUpdateState → Type 0
Said new o =
    (row : WorkerUpdateState) × ((o ≡ some row)
      × ((row.status ≡ new.status) × (row.announcement_id ≡ new.announcement_id)))

merged_state-announcement_id :
    (row new : WorkerUpdateState)
    → is_empty new.announcement_id ≡ false
    → (merged_state row new).announcement_id ≡ new.announcement_id
merged_state-announcement_id row new h = rw h refl

state_of_first :
    (worker kind : Text) (row : WorkerUpdateState) (rows : List WorkerUpdateState)
    → (eqb row.worker_id worker && eqb row.kind kind) ≡ true
    → state_of worker kind (row ∷ rows) ≡ some row
unfolding state_of
state_of_first worker kind row rows h = rw h refl

state_of-put_state :
    (new : WorkerUpdateState) (rows : List WorkerUpdateState)
    → is_empty new.announcement_id ≡ false
    → Said new (state_of new.worker_id new.kind (put_state new rows))
unfolding put_state state_of
state_of-put_state new [] h = (
  new,
  (
    state_of_first new.worker_id new.kind new []
        (rw (eqb_refl new.worker_id, eqb_refl new.kind) refl),
    (refl, refl),
  ),
)
state_of-put_state new (row ∷ rows) h = elim (Bool-cases (same_row row new)) [
  | inl b ↦
      let m = merged_state row new in
      let e : put_state new (row ∷ rows) ≡ m ∷ rows = rw b refl in
      let t : (eqb m.worker_id new.worker_id && eqb m.kind new.kind) ≡ true =
        rw (eqb_refl new.worker_id, eqb_refl new.kind) refl in
      (
        m,
        (
          ap (state_of new.worker_id new.kind) e ∙ state_of_first new.worker_id new.kind m rows t,
          (refl, merged_state-announcement_id row new h),
        ),
      )
  | inr b ↦
      let e : put_state new (row ∷ rows) ≡ row ∷ put_state new rows = rw b refl in
      let ih = state_of-put_state new rows h in
      let later : state_of new.worker_id new.kind (row ∷ put_state new rows)
          ≡ state_of new.worker_id new.kind (put_state new rows) =
        rw b refl in
      (ih.0, (ap (state_of new.worker_id new.kind) e ∙ (later ∙ ih.1.0), ih.1.1))
]

pending_for-announcement :
    (ann : Announcement) (o : Option WorkerUpdateState) → (pending_for ann o).announcement ≡ ann
pending_for-announcement ann none = refl
pending_for-announcement ann (some st) = refl

-- What is pending is not resolved.
pending_from-is_resolved :
    (worker_id : Text) (states : List WorkerUpdateState) (seen : List Text)
    (anns : List Announcement)
    → All
        (λ p. is_resolved p.announcement (state_of worker_id p.announcement.kind states) ≡ false)
        (pending_from worker_id states seen anns)
unfolding pending_from
pending_from-is_resolved worker_id states seen [] = tt
pending_from-is_resolved worker_id states seen (ann ∷ anns) =
    let st = state_of worker_id ann.kind states in
    let is_seen = any (λ k. eqb k ann.kind) seen in
    let ih =
      pending_from-is_resolved worker_id states (if is_seen then seen else ann.kind ∷ seen) anns in
    elim (Bool-cases (is_seen || is_resolved ann st)) [
      | inl b ↦ rw b ih
      | inr b ↦ rw b (
        subst (λ a. is_resolved a (state_of worker_id a.kind states) ≡ false)
            (sym (pending_for-announcement ann st)) (first st b),
        ih,
      )
    ]
  where
    first :
        (st : Option WorkerUpdateState)
        → (any (λ k. eqb k ann.kind) seen || is_resolved ann st) ≡ false
        → is_resolved ann st ≡ false
    first st b = ground arith

-- A worker that was reported to be through with an announcement.
abbrev is_through : Text → Bool
is_through status = eqb status status_applied || eqb status status_declined

record_update_state-ok :
    (now : ℕ) (g : Graph) (worker_id : Text) (rep : UpdateReport) (s s' : UpdateStore)
    → record_update_state now g worker_id rep s ≡ ok s'
    → s'.states ≡ put_state (reported_state now worker_id rep) s.states
unfolding record_update_state upsert_worker_update_state
record_update_state-ok now g worker_id rep s s' h = ground arith

-- After a worker has reported an announcement of a kind applied or declined, by its id, no
-- announcement of that kind with that id is among what is pending for that worker.
pub pending_updates_for-record_update_state :
    (now : ℕ) (g : Graph) (worker_id : Text) (rep : UpdateReport) (s s' : UpdateStore)
    (ps : List Pending)
    → record_update_state now g worker_id rep s ≡ ok s'
    → is_empty rep.announcement_id ≡ false
    → is_through rep.status ≡ true
    → pending_updates_for g worker_id s' ≡ ok ps
    → All
        (λ p.
          (eqb p.announcement.kind rep.kind && eqb p.announcement.id rep.announcement_id) ≡ false)
        ps
unfolding pending_updates_for
pending_updates_for-record_update_state now g worker_id rep s s' ps h n t q =
    let anns = list_update_announcements [] 0 s'.announcements in
    let e : pending_from worker_id s'.states [] anns ≡ ps = ground arith in
    let put = record_update_state-ok now g worker_id rep s s' h in
    let said = state_of-put_state (reported_state now worker_id rep) s.states n in
    let found : state_of worker_id rep.kind s'.states ≡ some said.0 =
      ap (state_of worker_id rep.kind) put ∙ said.1.0 in
    subst
      (All (λ p.
        (eqb p.announcement.kind rep.kind && eqb p.announcement.id rep.announcement_id) ≡ false))
      e
      (All-weaken _ _ (λ p u. other p.announcement said.0 found said.1.1.0 said.1.1.1 u)
        (pending_from worker_id s'.states [] anns)
        (pending_from-is_resolved worker_id s'.states [] anns))
  where
    other :
        (a : Announcement) (row : WorkerUpdateState)
        → state_of worker_id rep.kind s'.states ≡ some row
        → row.status ≡ rep.status
        → row.announcement_id ≡ rep.announcement_id
        → is_resolved a (state_of worker_id a.kind s'.states) ≡ false
        → (eqb a.kind rep.kind && eqb a.id rep.announcement_id) ≡ false
    other a row f st id u =
        elim (Bool-cases (eqb a.kind rep.kind && eqb a.id rep.announcement_id)) [
          | inr b ↦ b
          | inl b ↦
              let k : a.kind ≡ rep.kind = (eqb_iff a.kind rep.kind).0 (ground arith) in
              let i : a.id ≡ rep.announcement_id =
                (eqb_iff a.id rep.announcement_id).0 (ground arith) in
              let o : state_of worker_id a.kind s'.states ≡ some row =
                ap (λ x. state_of worker_id x s'.states) k ∙ f in
              let r : is_resolved a (some row) ≡ false = subst (λ x. is_resolved a x ≡ false) o u in
              let same : eqb row.announcement_id a.id ≡ true =
                (eqb_iff row.announcement_id a.id).1 (id ∙ sym i) in
              let through : is_through row.status ≡ true = ap is_through st ∙ t in
              let c : is_resolved a (some row) ≡ true = rw (same, through) refl in cc
        ]
