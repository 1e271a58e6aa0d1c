-- ===== src/Server/Workers/Shape.antt =====
-- The chart stays a forest under the operations of internal/server/server.go on one worker, whichever
-- calls of the store and of the messaging backend fail.
use robotdreams.Base.{
  ap, ◌∙◌, ◌≡◌, Text, Bool, not, Option, some, Result, ok, arith, Result-cases, Option-cases, inl,
  inr, eqb,
}
use robotdreams.Orgchart.Graph.{Graph, Worker, Error, add_worker, reassign, set_role}
use robotdreams.Orgchart.Graph
use robotdreams.Orgchart.Graph.Forest.{IsForest}
use robotdreams.Orgchart.Graph.Edits.{add_worker-IsForest, reassign-IsForest, set_role-IsForest}
use robotdreams.Auth.Delegation.{validate_worker_id}
use robotdreams.Server.State.{Server, World, read, edit, edit_climbing, upsert_worker}
use robotdreams.Server.Keeps.{Keeps, Keeps-then, Keeps-pure, Keeps-raise, Keeps-read, Keeps-if}
use robotdreams.Server.Workers.Notices.{Keeps-announce}
use robotdreams.Server.Workers.{may_edit, filled, connect_worker, reassign_worker, set_worker_role}

-- The chart in memory is a forest of registered workers.
abbrev pub InForm : Server → Type 0
InForm s = IsForest s.graph

pub Keeps-edit :
    (f : Graph → Result Error Graph)
    → ((g g' : Graph) → IsForest g → f g ≡ ok g' → IsForest g')
    → Keeps InForm (edit f)
unfolding edit
Keeps-edit f h s p = elim (Result-cases (f s.graph)) [
  | inl (g, e) ↦ rw (e, edit) (h s.graph g p e)
  | inr (e, q) ↦ rw (q, edit) p
]

pub Keeps-edit_climbing :
    (f : Graph → Option (Result Error Graph))
    → ((g g' : Graph) → IsForest g → f g ≡ some (ok g') → IsForest g')
    → Keeps InForm (edit_climbing f)
unfolding edit_climbing
Keeps-edit_climbing f h s p = elim (Option-cases (f s.graph)) [
  | inl e ↦ rw (e, edit_climbing) p
  | inr (r, e) ↦ elim (Result-cases r) [
    | inl (g, q) ↦ rw (e, q, edit_climbing) (h s.graph g p (e ∙ ap some q))
    | inr (x, q) ↦ rw (e, q, edit_climbing) p
  ]
]

module _ (w : World) where
  pub Keeps-upsert_worker : (v : Worker) → Keeps InForm (upsert_worker w v)
  unfolding upsert_worker
  Keeps-upsert_worker v s p = ground arith

  -- Connecting a worker keeps the chart a forest.
  pub connect_worker-IsForest :
      (v : Worker) (reported : Bool) (s : Server)
      → IsForest s.graph
      → IsForest (connect_worker w v reported s).1.graph
  unfolding connect_worker
  connect_worker-IsForest v reported =
      Keeps-if InForm (validate_worker_id v.id) _ _
        (Keeps-then InForm (edit (λ g. add_worker g (filled w v reported))) _
          (Keeps-edit _ (λ g g' f. add_worker-IsForest f (filled w v reported) g'))
          (λ _. Keeps-upsert_worker (filled w v reported)))
        (Keeps-raise InForm _ _)

  -- Moving a worker keeps the chart a forest, whichever calls fail and whatever is answered.
  pub reassign_worker-IsForest :
      (worker_id new_parent caller : Text) (admin : Bool) (s : Server)
      → IsForest s.graph
      → IsForest (reassign_worker w worker_id new_parent caller admin s).1.graph
  unfolding reassign_worker
  reassign_worker-IsForest worker_id new_parent caller admin =
      Keeps-then InForm (read (λ g. Graph.get g worker_id)) _ (Keeps-read InForm _) (λ current.
        Keeps-if InForm (not (may_edit current worker_id caller admin)) _ _ (Keeps-raise InForm _ _)
          (Keeps-then InForm (edit_climbing (λ g. reassign g worker_id new_parent)) _
            (Keeps-edit_climbing _ (λ g g' f. reassign-IsForest f worker_id new_parent g'))
            (λ _.
              Keeps-then InForm (read (λ g. Graph.get g worker_id)) _ (Keeps-read InForm _)
                (λ updated.
                  Keeps-then InForm (upsert_worker w updated) _ (Keeps-upsert_worker updated)
                    (λ _. Keeps-announce InForm (λ s n p. p) (λ s es p. p) w _ _ _)))))

  -- Changing a role keeps the chart a forest.
  pub set_worker_role-IsForest :
      (worker_id role caller : Text) (admin : Bool) (s : Server)
      → IsForest s.graph
      → IsForest (set_worker_role w worker_id role caller admin s).1.graph
  unfolding set_worker_role
  set_worker_role-IsForest worker_id role caller admin =
      Keeps-then InForm (read (λ g. Graph.get g worker_id)) _ (Keeps-read InForm _) (λ current.
        Keeps-if InForm (not (may_edit current worker_id caller admin)) _ _ (Keeps-raise InForm _ _)
          (Keeps-if InForm (eqb current.role role) _ _ (Keeps-pure InForm tt) (
            Keeps-then InForm (edit (λ g. set_role g worker_id role)) _
              (Keeps-edit _ (λ g g' f. set_role-IsForest f worker_id role g'))
              (λ _.
                Keeps-then InForm (read (λ g. Graph.get g worker_id)) _ (Keeps-read InForm _)
                  (λ updated.
                    Keeps-then InForm (upsert_worker w updated) _ (Keeps-upsert_worker updated)
                      (λ _. Keeps-announce InForm (λ s n p. p) (λ s es p. p) w _ _ _))))))
