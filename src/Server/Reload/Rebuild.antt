-- ===== src/Server/Reload/Rebuild.antt =====
-- The chart is rebuilt in finitely many rounds, and is a forest.
use robotdreams.Base.{ℕ, zero, suc, List, [], ◌∷◌, map, length, ◌==◌, Result-cases, inl, inr}
use robotdreams.Orgchart.Graph.{Worker, Error, Graph, add_worker, parent_not_found, with_parent}
use robotdreams.Orgchart.Graph
use robotdreams.Orgchart.Graph.Forest.{IsForest}
use robotdreams.Orgchart.Graph.Edits.{add_worker-IsForest}
use robotdreams.Server.State.{World, Server, M, gets, edit, upsert_worker}
use robotdreams.Server.Keeps.{Keeps, Keeps-then, Keeps-pure, Keeps-raise, Keeps-gets, Keeps-if}
use robotdreams.Server.Workers.Shape.{InForm, Keeps-edit, Keeps-upsert_worker}
use robotdreams.Server.Reload.{
  deferring, add_round, reattach_orphans_to_root, reload, declare_round, declare, load_graph,
}

Keeps-deferring :
    (e : Error) (v : Worker) (m : M (List Worker)) → Keeps InForm m → Keeps InForm (deferring e v m)
unfolding deferring
Keeps-deferring Graph.parent_not_found v m k = Keeps-then InForm m _ k (λ d. Keeps-pure InForm _)
Keeps-deferring Graph.not_found v m k = Keeps-raise InForm _ _
Keeps-deferring Graph.duplicate_worker v m k = Keeps-raise InForm _ _
Keeps-deferring Graph.cycle v m k = Keeps-raise InForm _ _
Keeps-deferring Graph.invalid_worker v m k = Keeps-raise InForm _ _

Keeps-add_round : (vs : List Worker) → Keeps InForm (add_round vs)
unfolding add_round
Keeps-add_round [] s p = Keeps-pure InForm [] s p
Keeps-add_round (v ∷ vs) s p = elim (Result-cases (add_worker s.graph v)) [
  | inl (g, e) ↦
      rw (e, add_round) (Keeps-add_round vs (record s { graph = g }) (add_worker-IsForest p v g e))
  | inr (x, e) ↦ rw (e, add_round) (Keeps-deferring x v (add_round vs) (Keeps-add_round vs) s p)
]

module _ (w : World) where
  Keeps-reattach : (vs : List Worker) → Keeps InForm (reattach_orphans_to_root w vs)
  unfolding reattach_orphans_to_root
  Keeps-reattach [] = Keeps-pure InForm tt
  Keeps-reattach (v ∷ vs) =
      Keeps-then InForm (edit (λ g. add_worker g (with_parent v []))) _
        (Keeps-edit _ (λ g g' f. add_worker-IsForest f (with_parent v []) g'))
        (λ _.
          Keeps-then InForm (upsert_worker w (with_parent v [])) _
            (Keeps-upsert_worker w (with_parent v [])) (λ _. Keeps-reattach vs))

  Keeps-reload : (fuel : ℕ) (vs : List Worker) → Keeps InForm (reload w fuel vs)
  unfolding reload
  Keeps-reload zero vs = Keeps-raise InForm _ _
  Keeps-reload (suc fuel) [] = Keeps-pure InForm tt
  Keeps-reload (suc fuel) (v ∷ vs) =
      Keeps-then InForm (add_round (v ∷ vs)) _ (Keeps-add_round (v ∷ vs)) (λ deferred.
        Keeps-if InForm (length deferred == length (v ∷ vs)) _ _ (Keeps-reattach deferred)
          (Keeps-reload fuel deferred))

  Keeps-declare_round : (vs : List Worker) → Keeps InForm (declare_round w vs)
  unfolding declare_round
  Keeps-declare_round [] s p = Keeps-pure InForm [] s p
  Keeps-declare_round (v ∷ vs) s p = elim (Result-cases (add_worker s.graph v)) [
    | inl (g, e) ↦
        rw (e, declare_round)
          (Keeps-then InForm (upsert_worker w v) _ (Keeps-upsert_worker w v)
            (λ _. Keeps-declare_round vs) (record s { graph = g }) (add_worker-IsForest p v g e))
    | inr (x, e) ↦
        rw (e, declare_round)
          (Keeps-deferring x v (declare_round w vs) (Keeps-declare_round vs) s p)
  ]

  Keeps-declare : (fuel : ℕ) (vs : List Worker) → Keeps InForm (declare w fuel vs)
  unfolding declare
  Keeps-declare zero vs = Keeps-raise InForm _ _
  Keeps-declare (suc fuel) [] = Keeps-pure InForm tt
  Keeps-declare (suc fuel) (v ∷ vs) =
      Keeps-then InForm (declare_round w (v ∷ vs)) _ (Keeps-declare_round (v ∷ vs)) (λ deferred.
        Keeps-if InForm (length deferred == length (v ∷ vs)) _ _ (Keeps-raise InForm _ _)
          (Keeps-declare fuel deferred))

  -- However the rows or the declared workers are ordered, and whatever they hold, the chart that is
  -- built from them on a forest, such as the empty chart, is a forest.
  pub load_graph-IsForest :
      (declared : List Worker) (s : Server)
      → IsForest s.graph
      → IsForest (load_graph w declared s).1.graph
  unfolding load_graph
  load_graph-IsForest declared =
      Keeps-then InForm (gets (λ s. map (λ e. e.1) s.rows)) _ (Keeps-gets InForm _) (λ rows.
        Keeps-if InForm (length rows == 0) _ _ (Keeps-declare (suc (length declared)) declared)
          (Keeps-reload (suc (length rows)) rows))
