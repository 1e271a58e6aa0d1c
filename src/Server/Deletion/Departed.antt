-- ===== src/Server/Deletion/Departed.antt =====
-- What is left of a worker that DeleteWorker of internal/server/server.go took out.
use robotdreams.Base.{
  ℕ, ◌≡◌, refl, sym, subst, Text, Bool, true, false, Option, Option-cases, Bool-cases, Result-cases,
  inl, inr, List, [], ◌∷◌, ◌++◌, map, reverse, In, In-append_right, Result, ok, arith,
}
use robotdreams.Messaging.{Envelope}
use robotdreams.Orgchart.Graph.{Worker, Graph, Error, reassign, children, descendants}
use robotdreams.Orgchart.Graph
use robotdreams.Server.Schedules.Due.{Keyed}
use robotdreams.Server.State.{
  World, Server, pure, read, read_climbing, edit_climbing, upsert_worker, upserts,
}
use robotdreams.Server.Keeps.{
  Keeps, Keeps-then, Keeps-pure, Keeps-read, Keeps-read_climbing, Keeps-if, steps_of_ok,
}
use robotdreams.Server.Workers.{announce}
use robotdreams.Server.Workers.Notices.{Keeps-announce}
use robotdreams.Server.Deletion.Sweep.{Gone, Swept, remove_all-Swept}
use robotdreams.Server.Deletion.{reparent_all, remove_all, depart, delete_worker}

module _ (w : World) where
  AllKeyed : Server → Type 0
  AllKeyed s = Keyed s.schedules

  edit_climbing-AllKeyed :
      (f : Graph → Option (Result Error Graph)) → Keeps AllKeyed (edit_climbing f)
  unfolding edit_climbing AllKeyed
  edit_climbing-AllKeyed f s p = elim (Option-cases (f s.graph)) [
    | inl e ↦ rw (e, edit_climbing) p
    | inr (r, e) ↦ elim (Result-cases r) [
      | inl (g, q) ↦ rw (e, q, edit_climbing) p
      | inr (x, q) ↦ rw (e, q, edit_climbing) p
    ]
  ]

  upsert_worker-AllKeyed : (v : Worker) → Keeps AllKeyed (upsert_worker w v)
  unfolding upsert_worker AllKeyed
  upsert_worker-AllKeyed v s p = elim (Bool-cases (w.fails (upserts v.id))) [
    | inl b ↦ rw (b, upsert_worker) p
    | inr b ↦ rw (b, upsert_worker) p
  ]

  pure-ok : {A : Type 0} (a b : A) (s s' : Server) → pure a s ≡ (ok b, s') → (a ≡ b) × (s ≡ s')
  unfolding pure
  pure-ok a b s s' h = (ground arith, ground arith)

  Keeps-reparent_all :
      (parent : Text) (ids : List Text) → Keeps AllKeyed (reparent_all w parent ids)
  unfolding reparent_all AllKeyed
  Keeps-reparent_all parent [] = Keeps-pure AllKeyed tt
  Keeps-reparent_all parent (id ∷ ids) =
      Keeps-then AllKeyed (edit_climbing (λ g. reassign g id parent)) _ (edit_climbing-AllKeyed _)
        (λ _. Keeps-then AllKeyed (read (λ g. Graph.get g id)) _ (Keeps-read AllKeyed _) (λ v.
          Keeps-then AllKeyed (upsert_worker w v) _ (upsert_worker-AllKeyed v)
            (λ _. Keeps-reparent_all parent ids)))

  Keeps-depart : (id parent : Text) (cascade : Bool) → Keeps AllKeyed (depart w id parent cascade)
  unfolding depart
  Keeps-depart id parent cascade =
      Keeps-if AllKeyed cascade _ _
        (Keeps-then AllKeyed (read_climbing (λ g. descendants g id)) _
          (Keeps-read_climbing AllKeyed _) (λ below. Keeps-pure AllKeyed _))
        (Keeps-then AllKeyed (read (λ g. children g id)) _ (Keeps-read AllKeyed _) (λ reports.
          Keeps-then AllKeyed (reparent_all w parent (map (λ v. v.id) reports)) _
            (Keeps-reparent_all parent (map (λ v. v.id) reports)) (λ _. Keeps-pure AllKeyed _)))

  depart-In :
      (id parent : Text) (cascade : Bool) (plan : List Text × List Text) (s s' : Server)
      → depart w id parent cascade s ≡ (ok plan, s')
      → In id plan.0
  unfolding depart pure
  depart-In id parent true plan s s' h =
      let (below, s1, e1, r1) = steps_of_ok (read_climbing (λ g. descendants g id)) _ plan s s' h in
      let q : (reverse (map (λ v. v.id) below) ++ id ∷ [], []) ≡ plan =
        (pure-ok _ plan s1 s' r1).0 in
      subst (λ z. In id z.0) q
        (In-append_right id (reverse (map (λ v. v.id) below)) (id ∷ []) (inl refl))
  depart-In id parent false plan s s' h =
      let (reports, s1, e1, r1) = steps_of_ok (read (λ g. children g id)) _ plan s s' h in
      let (u, s2, e2, r2) =
        steps_of_ok (reparent_all w parent (map (λ v. v.id) reports)) _ plan s1 s' r1 in
      let q : (id ∷ [], map (λ v. v.id) reports) ≡ plan = (pure-ok _ plan s2 s' r2).0 in
      subst (λ z. In id z.0) q (inl refl)

  -- Where each schedule is stored under its own id, a deletion that is answered with success names
  -- the worker among the removed. Each of the removed is in the chart no more, the store has no row of
  -- it, nothing that it said of updates and no app of it, it is revoked, and no schedule is its own or
  -- is addressed to it.
  pub delete_worker-Gone :
      (id reason : Text) (cascade : Bool) (removed : List Text) (s s' : Server)
      → Keyed s.schedules
      → delete_worker w id reason cascade s ≡ (ok removed, s')
      → In id removed × ((j : Text) → In j removed → Gone j s')
  unfolding delete_worker pure AllKeyed Swept
  delete_worker-Gone id reason cascade removed s s' keyed h =
      let (target, s1, e1, r1) = steps_of_ok (read (λ g. Graph.get g id)) _ removed s s' h in
      let (plan, s2, e2, r2) =
        steps_of_ok (depart w id target.reports_to cascade) _ removed s1 s' r1 in
      let (u3, s3, e3, r3) = steps_of_ok (remove_all w _ plan.0) _ removed s2 s' r2 in
      let (u4, s4, e4, r4) = steps_of_ok (announce w _ _ _) _ removed s3 s' r3 in
      let k1 : AllKeyed s1 = subst (λ r. AllKeyed r.1) e1 (Keeps-read AllKeyed _ s keyed) in
      let k2 : AllKeyed s2 =
        subst (λ r. AllKeyed r.1) e2 (Keeps-depart id target.reports_to cascade s1 k1) in
      let (a, b, c) = remove_all-Swept w _ plan.0 s2 s3 k2 e3 in
      let q : plan.0 ≡ removed = (pure-ok plan.0 removed s4 s' r4).0 in
      let q4 : s4 ≡ s' = (pure-ok plan.0 removed s4 s' r4).1 in
      (
        subst (In id) q (depart-In id target.reports_to cascade plan s1 s2 e2),
        λ j i. subst (Gone j) q4 (
            subst (λ r. Gone j r.1) e4
              (Keeps-announce (Gone j) (minted j) (sent j) w _ _ _ s3
                (b j (subst (In j) (sym q) i)))),
      )
    where
      minted : (j : Text) (x : Server) (n : ℕ) → Gone j x → Gone j (record x { minted = n })
      minted j x n g = record {
        unlisted = g.unlisted;
        unstored = g.unstored;
        unreported = g.unreported;
        appless = g.appless;
        revoked = g.revoked;
        unscheduled = g.unscheduled;
      }

      sent :
          (j : Text) (x : Server) (es : List Envelope) → Gone j x → Gone j (record x { sent = es })
      sent j x es g = record {
        unlisted = g.unlisted;
        unstored = g.unstored;
        unreported = g.unreported;
        appless = g.appless;
        revoked = g.revoked;
        unscheduled = g.unscheduled;
      }
