-- ===== src/Server/Workers/Rows.antt =====
-- What the store holds of a worker after the operations of internal/server/server.go.
use robotdreams.Base.{
  suc, length, ◌≡◌, refl, ap, subst, codes, ◌++◌, ◌∙◌, Text, Bool, some, List, [], ◌∷◌, ok,
  if◌then◌else◌, arith, Result-cases, Option-cases, Bool-cases, inl, inr, eqb, eqb_iff, eqb_refl,
  lookup, insert, lookup-insert,
}
use robotdreams.Orgchart.Graph.{Graph, Worker, connected, reassign, with_parent, has_ancestor}
use robotdreams.Orgchart.Graph
use robotdreams.Server.State.{
  Server, World, M, ◌>>=◌, ◌>>◌, raise, read, reassigned, upsert_worker, edit_climbing,
}
use robotdreams.Server.Keeps.{Keeps, steps_of_ok}
use robotdreams.Server.Workers.Notices.{Keeps-announce}
use robotdreams.Server.Workers.{may_edit, author, present, announce, touch_worker, reassign_worker}

-- The loop's answer decides between an error and the move.
reassign-set_parent :
    (g g' : Graph) (k p : Text) (v : Worker)
    → lookup k g ≡ some v
    → reassign g k p ≡ some (ok g')
    → lookup k g' ≡ some (with_parent v p)
unfolding reassign
reassign-set_parent g g' k [] v h e =
    let s : insert k (with_parent v []) g ≡ g' = ground arith in
    rw (← s) (ground (arith, lookup-insert k k (with_parent v []) g, eqb_refl k))
reassign-set_parent g g' k (b ∷ bs) v h e = elim (Option-cases (lookup (b ∷ bs) g)) [
  | inl q ↦ absurd (ground arith)
  | inr (u, q) ↦ elim (Option-cases (has_ancestor (suc (length g)) g u k)) [
    | inl x ↦ absurd (ground arith)
    | inr (found, x) ↦
        let s : insert k (with_parent v (b ∷ bs)) g ≡ g' = ground arith in
        rw (← s) (ground (arith, lookup-insert k k (with_parent v (b ∷ bs)) g, eqb_refl k))
  ]
]

module _ (w : World) where
  upsert_worker-ok :
      (v : Worker) (s s1 : Server) (u : Unit)
      → upsert_worker w v s ≡ (ok u, s1)
      → s1 ≡ record s { rows = insert v.id v s.rows }
  unfolding upsert_worker
  upsert_worker-ok v s s1 u h = ground arith

  -- A touch that is answered with success stores the worker as seen now, and the chart in memory
  -- is what it was.
  pub touch_worker-ok :
      (k : Text) (s s' : Server) (v : Worker)
      → lookup k s.graph ≡ some v
      → v.id ≡ k
      → touch_worker w k s ≡ (ok tt, s')
      → (lookup k s'.rows ≡ some (record v { last_seen_at = w.now; status = connected }))
        × (s'.graph ≡ s.graph)
  unfolding touch_worker ◌>>=◌ read Graph.get
  touch_worker-ok k s s' v h i e =
      let u : upsert_worker w (record v { last_seen_at = w.now; status = connected }) s
          ≡ (ok tt, s') =
        ground arith in
      let q = upsert_worker-ok _ s s' tt u in
      rw q (
        ground (
          arith,
          lookup-insert k k (record v { last_seen_at = w.now; status = connected }) s.rows,
          eqb_refl k,
        ),
        refl,
      )

  read_of_ok :
      (k : Text) (s s1 : Server) (a : Worker)
      → read (λ g. Graph.get g k) s ≡ (ok a, s1)
      → (lookup k s.graph ≡ some a) × (s1 ≡ s)
  unfolding read Graph.get
  read_of_ok k s s1 a h = ground arith

  edit_climbing_of_ok :
      (k p : Text) (s s1 : Server) (u : Unit)
      → edit_climbing (λ g. reassign g k p) s ≡ (ok u, s1)
      → (g : Graph) × (reassign s.graph k p ≡ some (ok g)) × (s1 ≡ record s { graph = g })
  unfolding edit_climbing
  edit_climbing_of_ok k p s s1 u h = elim (Option-cases (reassign s.graph k p)) [
    | inl e ↦ absurd (ground arith)
    | inr (r, e) ↦ elim (Result-cases r) [
      | inl (g, q) ↦ (g, e ∙ ap some q, ground arith)
      | inr (x, q) ↦ absurd (ground arith)
    ]
  ]

  Agree : Text → Worker → Server → Type 0
  Agree k v s = (lookup k s.rows ≡ some v) × (lookup k s.graph ≡ some v)

  Keeps-Agree :
      (k : Text) (v : Worker) (subject body : Text) (to : List Text)
      → Keeps (Agree k v) (announce w subject body to)
  unfolding Agree
  Keeps-Agree k v = Keeps-announce (Agree k v) (λ s n p. p) (λ s es p. p) w

  -- What follows the test of the caller, whose notice does not matter here.
  move_and_store : Text → Text → Text → Text → List Text → M (Unit {0})
  move_and_store k p subject body to =
      edit_climbing (λ g. reassign g k p)
      >> (read (λ g. Graph.get g k) >>= λ v. upsert_worker w v >> announce w subject body to)

  move_and_store-Agree :
      (k p subject body : Text) (to : List Text) (s s' : Server) (v : Worker)
      → lookup k s.graph ≡ some v
      → v.id ≡ k
      → move_and_store k p subject body to s ≡ (ok tt, s')
      → Agree k (with_parent v p) s'
  unfolding move_and_store Agree
  move_and_store-Agree k p subject body to s s' v h i e =
      let (_, s1, e1, r1) = steps_of_ok (edit_climbing (λ g. reassign g k p)) _ tt s s' e in
      let (g, m, q1) = edit_climbing_of_ok k p s s1 tt e1 in
      let (u, s2, e2, r2) = steps_of_ok (read (λ g. Graph.get g k)) _ tt s1 s' r1 in
      let (hu, q2) = read_of_ok k s1 s2 u e2 in
      let (_, s3, e3, r3) = steps_of_ok (upsert_worker w u) _ tt s2 s' r2 in
      let q3 = upsert_worker-ok u s2 s3 tt e3 in
      let up : lookup k g ≡ some (with_parent v p) = reassign-set_parent s.graph g k p v h m in
      let here : lookup k s1.graph ≡ some u = hu in
      let g1 : s1.graph ≡ g = ap (λ x. x.graph) q1 in
      let uv : u ≡ with_parent v p = cc in
      let stored : lookup k (insert u.id u s2.rows) ≡ some (with_parent v p) =
        rw uv (ground (arith, lookup-insert v.id k (with_parent v p) s2.rows, eqb_iff v.id k)) in
      let same : s2.graph ≡ g = ap (λ x. x.graph) (q2 ∙ q1) in
      let before : Agree k (with_parent v p) s3 = rw q3 (stored, ap (lookup k) same ∙ up) in
      subst (λ r. Agree k (with_parent v p) r.1) r3
        (Keeps-Agree k (with_parent v p) subject body to s3 before)

  -- A move of a worker that the chart has under its own id, answered with success, leaves the same
  -- worker in the chart and in the store: the one that the chart had, under its new parent.
  pub reassign_worker-ok :
      (k p caller : Text) (admin : Bool) (s s' : Server) (v : Worker)
      → lookup k s.graph ≡ some v
      → v.id ≡ k
      → reassign_worker w k p caller admin s ≡ (ok tt, s')
      → (lookup k s'.rows ≡ some (with_parent v p)) × (lookup k s'.graph ≡ some (with_parent v p))
  unfolding reassign_worker Agree raise move_and_store ◌>>=◌ read Graph.get
  reassign_worker-ok k p caller admin s s' v h i e = elim (Bool-cases (may_edit v k caller admin)) [
    | inr denied ↦ absurd (ground arith)
    | inl granted ↦
        move_and_store-Agree k p (codes "worker reassigned")
          (w.encode (reassigned k v.reports_to p (author caller)))
          (k ∷ present v.reports_to ++ (if eqb p v.reports_to then [] else present p)) s s' v h i
          (ground arith)
  ]

-- A touch stores the worker as seen now. A move after it, both answered with success, stores the
-- worker that the chart had before the touch, with its older time, under the new parent.
pub reassign_worker-touch_worker :
    (w1 w2 : World) (k p caller : Text) (admin : Bool) (s s1 s2 : Server) (v : Worker)
    → lookup k s.graph ≡ some v
    → v.id ≡ k
    → touch_worker w1 k s ≡ (ok tt, s1)
    → reassign_worker w2 k p caller admin s1 ≡ (ok tt, s2)
    → (lookup k s1.rows ≡ some (record v { last_seen_at = w1.now; status = connected }))
      × (lookup k s2.rows ≡ some (with_parent v p))
reassign_worker-touch_worker w1 w2 k p caller admin s s1 s2 v h i e1 e2 =
    let (a, g) = touch_worker-ok w1 k s s1 v h i e1 in
    (a, (reassign_worker-ok w2 k p caller admin s1 s2 v (ap (lookup k) g ∙ h) i e2).0)
