-- ===== src/Server/Reload/Rounds.antt =====
-- The rounds that rebuild the chart come to an end.
use robotdreams.Base.{
  ℕ, zero, suc, ◌≤◌, ◌<◌, ◌≢◌, List, [], ◌∷◌, map, length, Result, ok, err, if◌then◌else◌, ◌==◌,
  ==_iff, arith, Result-cases, Bool-cases, inl, inr,
}
use robotdreams.Orgchart.Graph.{Worker, Error, Graph, add_worker, parent_not_found, with_parent}
use robotdreams.Orgchart.Graph
use robotdreams.Server.State.{
  World, Server, ServerError, M, ◌>>=◌, pure, raise, gets, edit, upsert_worker, endless, upserts,
  continue,
}
use robotdreams.Server.Reload.{
  deferring, add_round, reattach_orphans_to_root, reload, declare_round, declare, load_graph,
}

-- The call ends: with a value of which `Q` holds, or with an error of the code.
Ends : {A : Type 0} → (A → Type 0) → Result ServerError A × Server → Type 0
Ends Q (ok a, s) = Q a
Ends Q (err e, s) = e ≢ endless

continue-Ends :
    {A B : Type 0} (Q : A → Type 0) (R : B → Type 0) (r : Result ServerError A × Server)
    (f : A → M B)
    → Ends Q r
    → ((a : A) (s : Server) → Q a → Ends R (f a s))
    → Ends R (continue r f)
unfolding Ends
continue-Ends Q R (ok a, s) f q h = h a s q
continue-Ends Q R (err e, s) f q h = q

deferring-Ends :
    (e : Error) (v : Worker) (m : M (List Worker)) (s : Server) (n : ℕ)
    → Ends (λ ds. length ds ≤ n) (m s)
    → Ends (λ ds. length ds ≤ suc n) (deferring e v m s)
unfolding deferring ◌>>=◌ Ends raise pure
deferring-Ends Graph.parent_not_found v m s n h =
    continue-Ends (λ ds. length ds ≤ n) (λ ds. length ds ≤ suc n) (m s) (λ ds. pure (v ∷ ds)) h
      (λ ds s' q. omega arith)
deferring-Ends Graph.not_found v m s n h = λ q. cc
deferring-Ends Graph.duplicate_worker v m s n h = λ q. cc
deferring-Ends Graph.cycle v m s n h = λ q. cc
deferring-Ends Graph.invalid_worker v m s n h = λ q. cc

weaken-Ends :
    (n : ℕ) (r : Result ServerError (List Worker) × Server)
    → Ends (λ ds. length ds ≤ n) r
    → Ends (λ ds. length ds ≤ suc n) r
unfolding Ends
weaken-Ends n (ok ds, s) h = omega arith
weaken-Ends n (err e, s) h = h

add_round-Ends :
    (vs : List Worker) (s : Server) → Ends (λ ds. length ds ≤ length vs) (add_round vs s)
unfolding add_round Ends pure
add_round-Ends [] s = omega arith
add_round-Ends (v ∷ vs) s = elim (Result-cases (add_worker s.graph v)) [
  | inl (g, e) ↦
      rw (e, add_round) (weaken-Ends (length vs) _ (add_round-Ends vs (record s { graph = g })))
  | inr (x, e) ↦
      rw (e, add_round) (deferring-Ends x v (add_round vs) s (length vs) (add_round-Ends vs s))
]

Done : Unit {0} → Type 0
Done u = Unit

module _ (w : World) where
  upsert-Ends : (v : Worker) (s : Server) → Ends Done (upsert_worker w v s)
  unfolding upsert_worker Ends Done
  upsert-Ends v s = elim (Bool-cases (w.fails (upserts v.id))) [
    | inl b ↦ rw (b, upsert_worker) (λ q. cc)
    | inr b ↦ rw (b, upsert_worker) tt
  ]

  edit-Ends : (f : Graph → Result Error Graph) (s : Server) → Ends Done (edit f s)
  unfolding edit Ends Done
  edit-Ends f s = elim (Result-cases (f s.graph)) [
    | inl (g, e) ↦ rw (e, edit) tt
    | inr (x, e) ↦ rw (e, edit) (λ q. cc)
  ]

  reattach-Ends : (vs : List Worker) (s : Server) → Ends Done (reattach_orphans_to_root w vs s)
  unfolding reattach_orphans_to_root Ends Done pure ◌>>=◌
  reattach-Ends [] s = tt
  reattach-Ends (v ∷ vs) s =
      continue-Ends Done Done (edit (λ g. add_worker g (with_parent v [])) s) _
        (edit-Ends (λ g. add_worker g (with_parent v [])) s)
        (λ _ s1 _.
          continue-Ends Done Done (upsert_worker w (with_parent v []) s1) _
            (upsert-Ends (with_parent v []) s1) (λ _ s2 _. reattach-Ends vs s2))

  reload-Ends :
      (fuel : ℕ) (vs : List Worker) (s : Server) → length vs < fuel → Ends Done (reload w fuel vs s)
  unfolding reload Ends Done pure ◌>>=◌ raise
  reload-Ends zero vs s h = absurd (omega arith)
  reload-Ends (suc fuel) [] s h = tt
  reload-Ends (suc fuel) (v ∷ vs) s h =
      continue-Ends (λ ds. length ds ≤ length (v ∷ vs)) Done (add_round (v ∷ vs) s) _
        (add_round-Ends (v ∷ vs) s)
        (λ ds s1 q. elim (Bool-cases (length ds == length (v ∷ vs))) [
          | inl b ↦ rw b (reattach-Ends ds s1)
          | inr b ↦
              rw b (reload-Ends fuel ds s1 (ground (arith, ==_iff (length ds) (length (v ∷ vs)))))
        ])

  declare_round-Ends :
      (vs : List Worker) (s : Server) → Ends (λ ds. length ds ≤ length vs) (declare_round w vs s)
  unfolding declare_round Ends pure ◌>>=◌
  declare_round-Ends [] s = omega arith
  declare_round-Ends (v ∷ vs) s = elim (Result-cases (add_worker s.graph v)) [
    | inl (g, e) ↦
        rw (e, declare_round)
          (weaken-Ends (length vs) _ (
            continue-Ends Done (λ ds. length ds ≤ length vs)
              (upsert_worker w v (record s { graph = g })) _
              (upsert-Ends v (record s { graph = g })) (λ _ s1 _. declare_round-Ends vs s1)))
    | inr (x, e) ↦
        rw (e, declare_round)
          (deferring-Ends x v (declare_round w vs) s (length vs) (declare_round-Ends vs s))
  ]

  declare-Ends :
      (fuel : ℕ) (vs : List Worker) (s : Server)
      → length vs < fuel
      → Ends Done (declare w fuel vs s)
  unfolding declare Ends Done pure ◌>>=◌ raise
  declare-Ends zero vs s h = absurd (omega arith)
  declare-Ends (suc fuel) [] s h = tt
  declare-Ends (suc fuel) (v ∷ vs) s h =
      continue-Ends (λ ds. length ds ≤ length (v ∷ vs)) Done (declare_round w (v ∷ vs) s) _
        (declare_round-Ends (v ∷ vs) s)
        (λ ds s1 q. elim (Bool-cases (length ds == length (v ∷ vs))) [
          | inl b ↦ rw b (λ z. cc)
          | inr b ↦
              rw b (declare-Ends fuel ds s1 (ground (arith, ==_iff (length ds) (length (v ∷ vs)))))
        ])

  never_endless : (r : Result ServerError (Unit {0}) × Server) → Ends Done r → r.0 ≢ err endless
  unfolding Ends
  never_endless (ok u, s) h e = cc
  never_endless (err x, s) h e = h cc

  -- Rebuilding the chart ends: one round more than there are rows, or declared workers, is enough.
  pub load_graph_ends :
      (declared : List Worker) (s : Server) → (load_graph w declared s).0 ≢ err endless
  unfolding load_graph ◌>>=◌ gets
  load_graph_ends declared s =
      never_endless (load_graph w declared s) (rounds (map (λ e. e.1) s.rows))
    where
      rounds :
          (rows : List Worker)
          → Ends Done (
              (if length rows == 0
                  then declare w (suc (length declared)) declared
                  else reload w (suc (length rows)) rows)
                s)
      rounds rows = elim (Bool-cases (length rows == 0)) [
        | inl b ↦ rw b (declare-Ends (suc (length declared)) declared s (omega arith))
        | inr b ↦ rw b (reload-Ends (suc (length rows)) rows s (omega arith))
      ]
