-- ===== src/Server/Deletion/Sweep.antt =====
-- The loop of DeleteWorker that takes workers out of the chart and of the tables of the store.
use robotdreams.Base.{
  ℕ, Bool, false, not, eqb, All, All-weaken, All-keep, All-keep_passed, In-order_by, ◌≡◌, ◌≢◌, sym,
  ap, ◌∙◌, subst, Text, Assoc, eqb_iff, eqb_refl, lookup, erase, lookup-erase, true, none, some,
  Option-cases, Bool-cases, inl, inr, List, [], ◌∷◌, map, keep, In, In-keep_iff, In-of_lookup, ok,
  arith,
}
use robotdreams.Orgchart.Graph.{remove}
use robotdreams.Auth.Revocation.{store_is_revoked, revoke}
use robotdreams.Auth.Revocation.Staleness.{store_is_revoked-revoke}
use robotdreams.Server.Schedules.{Schedule, Filter, list, selects, rows, by_id}
use robotdreams.Server.Schedules.Due.{Keyed, In-rows}
use robotdreams.Server.State.{
  World, Server, ◌>>=◌, pure, gets, edit, delete_row, drop_row, drop_updates, delete_worker_app,
  revoke_worker, delete_schedule, unschedules,
}
use robotdreams.Updates.Store.{UpdateStore, WorkerUpdateState, delete_worker_update_state}
use robotdreams.Server.Keeps.{Keeps, Keeps-then, Keeps-pure, Keeps-gets, steps_of_ok}
use robotdreams.Server.Deletion.{delete_all, delete_worker_schedules, remove_all}

-- No schedule is owned or received by the worker.
abbrev pub Unscheduled : Text → Assoc Schedule → Type 0
Unscheduled id m =
    (k : Text) (sc : Schedule) → lookup k m ≡ some sc → (sc.owner ≢ id) × (sc.to ≢ id)

-- No row says anything of the worker.
abbrev pub Unreported : Text → UpdateStore → Type 0
Unreported id u = All (λ row. eqb row.worker_id id ≡ false) u.states

delete_worker_update_state-Unreported :
    (id j : Text) (u : UpdateStore)
    → Unreported id (delete_worker_update_state id u)
      × (Unreported j u → Unreported j (delete_worker_update_state id u))
unfolding delete_worker_update_state
delete_worker_update_state-Unreported id j u =
    let others : WorkerUpdateState → Bool = λ row. not (eqb row.worker_id id) in
    (
      All-weaken (λ row. others row ≡ true) (λ row. eqb row.worker_id id ≡ false)
          (λ row h. ground arith) (keep others u.states) (All-keep_passed others u.states),
      All-keep (λ row. eqb row.worker_id j ≡ false) others u.states,
    )

pub record Gone (id : Text) (s : Server) : Type 0 where
  pub unlisted : lookup id s.graph ≡ none
  pub unstored : lookup id s.rows ≡ none
  pub unreported : Unreported id s.updates
  pub appless : lookup id s.apps ≡ none
  pub revoked : store_is_revoked s.revoked id ≡ true
  pub unscheduled : Unscheduled id s.schedules

In-map_id : (sc : Schedule) (l : List Schedule) → In sc l → In sc.id (map (λ x. x.id) l)
In-map_id sc [] h = h
In-map_id sc (x ∷ l) (inl e) = inl (ap (λ z. z.id) e)
In-map_id sc (x ∷ l) (inr h) = inr (In-map_id sc l h)

-- The server without the worker, which is revoked; the schedules are as they were.
abbrev cleared : ℕ → Text → Text → Server → Server
cleared now id reason s = record s {
  graph = erase id s.graph;
  rows = erase id s.rows;
  updates = delete_worker_update_state id s.updates;
  apps = erase id s.apps;
  revoked = revoke s.revoked now id reason;
}

module _ (w : World) where
  delete_schedule-ok :
      (id : Text) (s s1 : Server) (u : Unit)
      → delete_schedule w id s ≡ (ok u, s1)
      → s1 ≡ record s { schedules = erase id s.schedules }
  unfolding delete_schedule
  delete_schedule-ok id s s1 u h = elim (Option-cases (lookup id s.schedules)) [
    | inl e ↦ absurd (ground arith)
    | inr (x, e) ↦ ground arith
  ]

  delete_all-ok :
      (ids : List Text) (s s' : Server) (k : Text) (sc : Schedule)
      → delete_all w ids s ≡ (ok tt, s')
      → lookup k s'.schedules ≡ some sc
      → (lookup k s.schedules ≡ some sc) × (¬ In k ids)
  unfolding delete_all pure
  delete_all-ok [] s s' k sc h l = let e : s ≡ s' = ground arith in (rw e l, λ z. z)
  delete_all-ok (id ∷ ids) s s' k sc h l =
      let (u, s1, e, r) = steps_of_ok (delete_schedule w id) _ tt s s' h in
      let q = ap (λ z. z.schedules) (delete_schedule-ok id s s1 u e) in
      let (l1, n) = delete_all-ok ids s1 s' k sc r l in
      let l2 : lookup k (erase id s.schedules) ≡ some sc = ap (lookup k) (sym q) ∙ l1 in
      (
        ground (arith, lookup-erase id k s.schedules),
        λ z. elim z [
          | inl x ↦ ground (arith, lookup-erase id k s.schedules, eqb_iff id k)
          | inr i ↦ n i
        ],
      )

  delete_worker_schedules-ok :
      (id : Text) (s s' : Server)
      → Keyed s.schedules
      → delete_worker_schedules w id s ≡ (ok tt, s')
      → Unscheduled id s'.schedules
  unfolding delete_worker_schedules list ◌>>=◌ gets
  delete_worker_schedules-ok id s s' keyed h k sc l =
      let f : Filter = record { owner = []; to = []; worker = id } in
      let (l0, n) = delete_all-ok (map (λ x. x.id) (list f s.schedules)) s s' k sc h l in
      let listed : selects f sc ≡ true → In k (map (λ x. x.id) (list f s.schedules)) = λ q.
        subst (λ z. In z (map (λ x. x.id) (list f s.schedules))) (keyed k sc l0)
          (In-map_id sc (list f s.schedules) (
            In-order_by by_id sc (keep (selects f) (rows s.schedules)) (
              (In-keep_iff (selects f) sc (rows s.schedules)).1
                (In-rows k sc s.schedules (In-of_lookup k sc s.schedules l0), q)))) in
      (
        λ e. n (listed (ground (arith, eqb_iff sc.owner id))),
        λ e. n (listed (ground (arith, eqb_iff sc.to id))),
      )

  Keeps-delete_schedule :
      (P : Server → Type 0)
      → ((s : Server) (k : Text) → P s → P (record s { schedules = erase k s.schedules }))
      → (id : Text) → Keeps P (delete_schedule w id)
  unfolding delete_schedule
  Keeps-delete_schedule P erasing id s p = elim (Bool-cases (w.fails (unschedules id))) [
    | inl b ↦ rw (b, delete_schedule) p
    | inr b ↦ elim (Option-cases (lookup id s.schedules)) [
      | inl e ↦ rw (b, delete_schedule, e) p
      | inr (x, e) ↦ rw (b, delete_schedule, e) (erasing s id p)
    ]
  ]

  -- Deleting schedules touches nothing else.
  Keeps-delete_all :
      (P : Server → Type 0)
      → ((s : Server) (k : Text) → P s → P (record s { schedules = erase k s.schedules }))
      → (ids : List Text) → Keeps P (delete_all w ids)
  unfolding delete_all
  Keeps-delete_all P erasing [] = Keeps-pure P tt
  Keeps-delete_all P erasing (id ∷ ids) =
      Keeps-then P (delete_schedule w id) _ (Keeps-delete_schedule P erasing id)
        (λ _. Keeps-delete_all P erasing ids)

  Keeps-delete_worker_schedules :
      (P : Server → Type 0)
      → ((s : Server) (k : Text) → P s → P (record s { schedules = erase k s.schedules }))
      → (id : Text) → Keeps P (delete_worker_schedules w id)
  unfolding delete_worker_schedules
  Keeps-delete_worker_schedules P erasing id =
      Keeps-then P (gets (λ s. list _ s.schedules)) _ (Keeps-gets P _)
        (λ owned. Keeps-delete_all P erasing (map (λ sc. sc.id) owned))

  Cleared : Text → Server → Type 0
  Cleared id s =
      (lookup id s.graph ≡ none)
      × (lookup id s.rows ≡ none)
      × Unreported id s.updates
      × (lookup id s.apps ≡ none)
      × (store_is_revoked s.revoked id ≡ true)

  remove-ok :
      (id : Text) (s s1 : Server) (u : Unit)
      → edit (λ g. remove g id) s ≡ (ok u, s1)
      → s1 ≡ record s { graph = erase id s.graph }
  unfolding edit remove
  remove-ok id s s1 u h = elim (Option-cases (lookup id s.graph)) [
    | inl e ↦ absurd (ground arith)
    | inr (x, e) ↦ ground arith
  ]

  delete_row-ok :
      (id : Text) (s s1 : Server) (u : Unit)
      → delete_row w id s ≡ (ok u, s1)
      → s1 ≡ record s {
        rows = erase id s.rows;
        updates = delete_worker_update_state id s.updates;
        apps = erase id s.apps;
      }
  unfolding delete_row drop_row drop_updates delete_worker_app
  delete_row-ok id s s1 u h =
      let (u2, s2, e2, r2) = steps_of_ok (drop_row w id) _ u s s1 h in
      let (u3, s3, e3, r3) = steps_of_ok (drop_updates w id) _ u s2 s1 r2 in
      let a : s2 ≡ record s { rows = erase id s.rows } = ground arith in
      let b : s3 ≡ record s2 { updates = delete_worker_update_state id s2.updates } =
        ground arith in
      let c : s1 ≡ record s3 { apps = erase id s3.apps } = ground arith in
      let unapped : Server → Server = λ x. record x { apps = erase id x.apps } in
      let silenced : Server → Server =
        λ x. record x { updates = delete_worker_update_state id x.updates } in
      c ∙ ap unapped (b ∙ ap silenced a)

  revoke_worker-ok :
      (id reason : Text) (s s1 : Server) (u : Unit)
      → revoke_worker w id reason s ≡ (ok u, s1)
      → s1 ≡ record s { revoked = revoke s.revoked w.now id reason }
  unfolding revoke_worker
  revoke_worker-ok id reason s s1 u h = ground arith

  erase-Gone :
      (j : Text) (s : Server) (k : Text)
      → Gone j s
      → Gone j (record s { schedules = erase k s.schedules })
  erase-Gone j s k g = record {
    unlisted = g.unlisted;
    unstored = g.unstored;
    unreported = g.unreported;
    appless = g.appless;
    revoked = g.revoked;
    unscheduled = λ i sc l. g.unscheduled i sc (ground (arith, lookup-erase k i s.schedules));
  }

  removed-Gone : (j id reason : Text) (s : Server) → Gone j s → Gone j (cleared w.now id reason s)
  removed-Gone j id reason s g = record {
    unlisted = ground (arith, lookup-erase id j s.graph, g.unlisted);
    unstored = ground (arith, lookup-erase id j s.rows, g.unstored);
    unreported = (delete_worker_update_state-Unreported id j s.updates).1 g.unreported;
    appless = ground (arith, lookup-erase id j s.apps, g.appless);
    revoked = ground (arith, store_is_revoked-revoke s.revoked w.now id reason j, g.revoked);
    unscheduled = g.unscheduled;
  }

  -- What is true of the server after the loop over the deleted workers.
  unfoldable pub Swept : List Text → Server → Server → Type 0
  Swept ids s s' =
      ((j : Text) → Gone j s → Gone j s') × ((j : Text) → In j ids → Gone j s') × Keyed s'.schedules

  erase-Keyed : (k : Text) (m : Assoc Schedule) → Keyed m → Keyed (erase k m)
  erase-Keyed k m h i sc l = h i sc (ground (arith, lookup-erase k i m))

  Swept-one :
      (id reason : Text) (s s4 : Server)
      → Keyed s.schedules
      → delete_worker_schedules w id (cleared w.now id reason s) ≡ (ok tt, s4)
      → Swept (id ∷ []) s s4
  unfolding Swept Cleared
  Swept-one id reason s s4 keyed h =
      let s3 : Server = cleared w.now id reason s in
      let kept : (P : Server → Type 0)
          → ((x : Server) (k : Text) → P x → P (record x { schedules = erase k x.schedules }))
          → P s3
          → P s4 =
        λ P erasing p. subst (λ r. P r.1) h (Keeps-delete_worker_schedules P erasing id s3 p) in
      let (a, b, p, q, c) =
        kept (Cleared id) (λ x k held. held)
          (
            ground (arith, lookup-erase id id s.graph, eqb_refl id),
            ground (arith, lookup-erase id id s.rows, eqb_refl id),
            (delete_worker_update_state-Unreported id id s.updates).0,
            ground (arith, lookup-erase id id s.apps, eqb_refl id),
            ground (arith, store_is_revoked-revoke s.revoked w.now id reason id, eqb_refl id),
          ) in
      let gone : Gone id s4 = record {
        unlisted = a;
        unstored = b;
        unreported = p;
        appless = q;
        revoked = c;
        unscheduled = delete_worker_schedules-ok id s3 s4 keyed h;
      } in
      (
        (λ j g. kept (Gone j) (erase-Gone j) (removed-Gone j id reason s g)),
        (λ j i. elim i [ inl e ↦ subst (λ z. Gone z s4) (sym e) gone | inr n ↦ absurd n ]),
        kept (λ x. Keyed x.schedules) (λ x k. erase-Keyed k x.schedules) keyed,
      )

  pub remove_all-Swept :
      (reason : Text) (ids : List Text) (s s' : Server)
      → Keyed s.schedules
      → remove_all w reason ids s ≡ (ok tt, s')
      → Swept ids s s'
  unfolding remove_all pure Swept
  remove_all-Swept reason [] s s' keyed h =
      let e : s ≡ s' = ground arith in rw (← e) ((λ j g. g), (λ j i. absurd i), keyed)
  remove_all-Swept reason (id ∷ ids) s s' keyed h =
      let barred : Server → Server = λ x. record x { revoked = revoke x.revoked w.now id reason } in
      let unstored : Server → Server = λ x. record x {
        rows = erase id x.rows;
        updates = delete_worker_update_state id x.updates;
        apps = erase id x.apps;
      } in
      let (u1, s1, e1, r1) = steps_of_ok (edit (λ g. remove g id)) _ tt s s' h in
      let (u2, s2, e2, r2) = steps_of_ok (delete_row w id) _ tt s1 s' r1 in
      let (u3, s3, e3, r3) = steps_of_ok (revoke_worker w id reason) _ tt s2 s' r2 in
      let (u4, s4, e4, r4) = steps_of_ok (delete_worker_schedules w id) _ tt s3 s' r3 in
      let q : s3 ≡ cleared w.now id reason s =
        revoke_worker-ok id reason s2 s3 u3 e3
        ∙ ap barred (delete_row-ok id s1 s2 u2 e2 ∙ ap unstored (remove-ok id s s1 u1 e1)) in
      let (keep1, gone1, keyed1) =
        Swept-one id reason s s4 keyed (ap (delete_worker_schedules w id) (sym q) ∙ e4) in
      let (keep2, gone2, keyed2) = remove_all-Swept reason ids s4 s' keyed1 r4 in
      (
        (λ j g. keep2 j (keep1 j g)),
        (λ j i. elim i [ inl e ↦ keep2 j (gone1 j (inl e)) | inr n ↦ gone2 j n ]),
        keyed2,
      )
