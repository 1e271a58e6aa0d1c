-- ===== src/Orgchart/Graph/Edits.antt =====
-- AddWorker, Reassign, SetRole and Remove keep the graph a forest.
use robotdreams.Base.{
  ℕ, zero, suc, ◌≡◌, refl, ◌≢◌, Text, eqb, eqb_iff, is_empty, lookup, insert, erase, erase-Distinct,
  lookup-erase, length, some, arith, false, Option-cases, Bool-cases, inl, inr, [], ok,
}
use robotdreams.Orgchart.Graph.{
  Graph, Worker, add_worker, reassign, set_role, remove, has_ancestor, with_parent,
}
use robotdreams.Orgchart.Graph.Chains.{Links, Climbs, not-Climbs_self}
use robotdreams.Orgchart.Graph.Ancestry.{has_ancestor-false}
use robotdreams.Orgchart.Graph.Forest.{IsForest, insert-IsForest, Climbs-known, blank_avoids}

module _ {g : Graph} (f : IsForest g) where
  -- A new worker under the root or under a worker that is there leaves a forest.
  pub add_worker-IsForest : (w : Worker) (g' : Graph) → add_worker g w ≡ ok g' → IsForest g'
  unfolding add_worker
  add_worker-IsForest w g' h =
      let e : insert w.id w g ≡ g' = ground arith in
      rw (← e) (
        insert-IsForest f w.id w refl fresh_id up (λ n c.
          let (v, s) = Climbs-known f n w.reports_to w.id up c fresh_id in absurd (ground arith)))
    where
      fresh_id : w.id ≢ []
      fresh_id e = ground arith

      up : w.reports_to ≢ [] → (v : Worker) × (lookup w.reports_to g ≡ some v)
      up ne = elim (Option-cases (lookup w.reports_to g)) [
        | inl a ↦ absurd (ground arith)
        | inr s ↦ s
      ]

  -- The move that `Reassign` makes once its tests have passed.
  move-IsForest :
      (k p : Text) (w : Worker)
      → lookup k g ≡ some w
      → (p ≢ [] → (v : Worker) × (lookup p g ≡ some v))
      → ((n : ℕ) → ¬ Climbs g n p k)
      → IsForest (insert k (with_parent w p) g)
  move-IsForest k p w h up avoid =
      insert-IsForest f k (with_parent w p) (f.keyed k w h) (λ e. ground (arith, f.no_blank)) up
        avoid

  -- A climb that did not meet `k` above `p`, where `p` is another worker than `k`.
  pub other_avoids :
      (k p : Text) (v : Worker)
      → k ≢ []
      → lookup p g ≡ some v
      → eqb p k ≡ false
      → (fuel : ℕ) → has_ancestor fuel g v k ≡ some false
      → (n : ℕ) → ¬ Climbs g n p k
  other_avoids k p v nk h ne fuel e zero c = ground (arith, eqb_iff p k)
  other_avoids k p v nk h ne fuel e (suc n) (q, m, c) =
      has_ancestor-false fuel g v k n f.no_blank nk e
        (let s : v.reports_to ≡ q = ground arith in rw s c)

  -- Reassign, on every branch that changes the graph, leaves a forest.
  pub reassign-IsForest : (k p : Text) (g' : Graph) → reassign g k p ≡ some (ok g') → IsForest g'
  unfolding reassign
  reassign-IsForest k p g' h = elim (Option-cases (lookup k g)) [
    | inl e ↦ absurd (ground arith)
    | inr (w, e) ↦ elim (Bool-cases (is_empty p)) [
      | inl b ↦
          let s : insert k (with_parent w []) g ≡ g' = ground arith in
          rw (← s) (move-IsForest k [] w e (λ nb. absurd (nb refl)) (blank_avoids f k (ids k w e)))
      | inr nb ↦ elim (Option-cases (lookup p g)) [
        | inl a ↦ absurd (ground arith)
        | inr (v, a) ↦
            let s : insert k (with_parent w p) g ≡ g' = ground arith in
            rw (← s) (
              move-IsForest k p w e (λ _. (v, a))
                (other_avoids k p v (ids k w e) a (ground arith) (suc (length g)) (ground arith)))
      ]
    ]
  ]
    where
      ids : (k : Text) (w : Worker) → lookup k g ≡ some w → k ≢ []
      ids k w e b = ground (arith, f.no_blank)

  -- Setting a role changes no edge.
  pub set_role-IsForest : (k role : Text) (g' : Graph) → set_role g k role ≡ ok g' → IsForest g'
  unfolding set_role
  set_role-IsForest k role g' h = elim (Option-cases (lookup k g)) [
    | inl e ↦ absurd (ground arith)
    | inr (w, e) ↦
        let s : insert k (record w { role = role }) g ≡ g' = ground arith in
        rw (← s) (
          insert-IsForest f k (record w { role = role }) (f.keyed k w e)
            (λ b. ground (arith, f.no_blank)) (f.closed k w e)
            (λ n c. above_self k w e (f.acyclic k) n c))
  ]
    where
      above_self :
          (k : Text) (w : Worker)
          → lookup k g ≡ some w
          → (m : ℕ) × Links g m k
          → (n : ℕ) → ¬ Climbs g n w.reports_to k
      above_self k w e (m, l) n c = not-Climbs_self g m n k l (w.reports_to, ground arith, c)

  -- Removing a worker to whom nobody reports leaves a forest.
  pub remove-IsForest :
      (k : Text) (g' : Graph)
      → ((j : Text) (w : Worker) → lookup j g ≡ some w → w.reports_to ≢ k)
      → remove g k ≡ ok g'
      → IsForest g'
  unfolding remove
  remove-IsForest k g' leaf h = elim (Option-cases (lookup k g)) [
    | inl e ↦ absurd (ground arith)
    | inr (w, e) ↦ let s : erase k g ≡ g' = ground arith in rw (← s) erased
  ]
    where
      none_above : (n : ℕ) (j : Text) → Links g n j → (m : ℕ) × Links (erase k g) m j
      none_above zero j l = (0, ground (arith, lookup-erase k j g))
      none_above (suc n) j (p, e, l) = elim (Bool-cases (eqb k j)) [
        | inl a ↦ (0, ground (arith, lookup-erase k j g))
        | inr a ↦
            let (m, r) = none_above n p l in (suc m, (p, ground (arith, lookup-erase k j g), r))
      ]

      still :
          (j : Text) (w : Worker)
          → lookup j (erase k g) ≡ some w
          → (v : Worker) × (lookup w.reports_to g ≡ some v)
          → (v : Worker) × (lookup w.reports_to (erase k g) ≡ some v)
      still j w e (v, b) = (
        v,
        ground (
          arith,
          lookup-erase k w.reports_to g,
          lookup-erase k j g,
          eqb_iff k w.reports_to,
          leaf j w,
        ),
      )

      erased : IsForest (erase k g)
      erased = record {
        keyed = λ j w e. ground (arith, lookup-erase k j g, f.keyed j w);
        no_blank = ground (arith, lookup-erase k [] g, f.no_blank);
        closed = λ j w e nb. still j w e (f.closed j w (ground (arith, lookup-erase k j g)) nb);
        distinct = erase-Distinct k g f.distinct;
        acyclic = λ j. let (n, l) = f.acyclic j in none_above n j l;
      }
