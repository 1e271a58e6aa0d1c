-- ===== src/Orgchart/Graph/Forest.antt =====
-- The invariant of the graph: it is a forest, and every operation of the server's use keeps it one.
use robotdreams.Base.{
  ℕ, zero, suc, ◌≡◌, refl, sym, ◌≢◌, Text, eqb, eqb_iff, lookup, insert, Distinct, insert-Distinct,
  lookup-insert, none, some, arith, true, Option-cases, Bool-cases, inl, inr, [], if◌then◌else◌,
}
use robotdreams.Orgchart.Graph.{Graph, Worker, new_graph}
use robotdreams.Orgchart.Graph.Chains.{manager, Links, Climbs, IsAcyclic}

-- Each worker stands under its own id, no id is empty, every manager named is a worker, and every
-- chain of managers ends.
pub record IsForest (g : Graph) : Type 0 where
  pub keyed : (k : Text) (w : Worker) → lookup k g ≡ some w → w.id ≡ k
  pub no_blank : lookup [] g ≡ none
  pub closed :
      (k : Text) (w : Worker)
      → lookup k g ≡ some w
      → w.reports_to ≢ []
      → (v : Worker) × (lookup w.reports_to g ≡ some v)
  pub acyclic : IsAcyclic g
  pub distinct : Distinct g

pub new_graph-IsForest : IsForest new_graph
unfolding lookup
new_graph-IsForest = record {
  keyed = λ k w h. cc;
  no_blank = refl;
  closed = λ k w h. cc;
  acyclic = λ k. (0, refl);
  distinct = tt;
}

manager-insert :
    (g : Graph) (k j : Text) (w : Worker)
    → manager (insert k w g) j ≡ (if eqb k j then some w.reports_to else manager g j)
manager-insert g k j w = ground (arith, lookup-insert k j w g)

-- A chain that does not pass `k` is not changed by a write at `k`.
Links-insert :
    (g : Graph) (k : Text) (w : Worker) (m : ℕ) (p : Text)
    → ((n : ℕ) → ¬ Climbs g n p k)
    → Links g m p
    → Links (insert k w g) m p
Links-insert g k w zero p avoid l = ground (arith, manager-insert g k p w, eqb_iff k p, avoid 0)
Links-insert g k w (suc m) p avoid (q, e, l) = (
  q,
  ground (arith, manager-insert g k p w, eqb_iff k p, avoid 0),
  Links-insert g k w m q (λ n c. avoid (suc n) (q, e, c)) l,
)

-- A worker put under a manager whose chain ends and does not pass the worker leaves every chain
-- ending.
insert-IsAcyclic :
    (g : Graph) (k : Text) (w : Worker)
    → IsAcyclic g
    → ((n : ℕ) → ¬ Climbs g n w.reports_to k)
    → IsAcyclic (insert k w g)
insert-IsAcyclic g k w ac avoid j = let (n, l) = ac j in go n j l
  where
    at_k : (m : ℕ) × Links (insert k w g) m k
    at_k =
        let (m, l) = ac w.reports_to in
        (
          suc m,
          (
            w.reports_to,
            ground (arith, manager-insert g k k w, eqb_iff k k),
            Links-insert g k w m w.reports_to avoid l,
          ),
        )

    moved : (j : Text) → eqb k j ≡ true → (m : ℕ) × Links (insert k w g) m j
    moved j e = rw (← (eqb_iff k j).0 e) at_k

    go : (n : ℕ) (j : Text) → Links g n j → (m : ℕ) × Links (insert k w g) m j
    go zero j l = elim (Bool-cases (eqb k j)) [
      | inl e ↦ moved j e
      | inr ne ↦ (0, ground (arith, manager-insert g k j w))
    ]
    go (suc n) j (p, e, l) = elim (Bool-cases (eqb k j)) [
      | inl e ↦ moved j e
      | inr ne ↦ let (m, r) = go n p l in (suc m, (p, ground (arith, manager-insert g k j w), r))
    ]

module _ {g : Graph} (f : IsForest g) where
  -- From the root or a worker's id, a climb reaches the root or a worker.
  pub Climbs-known :
      (n : ℕ) (p k : Text)
      → (p ≢ [] → (v : Worker) × (lookup p g ≡ some v))
      → Climbs g n p k
      → k ≢ []
      → (v : Worker) × (lookup k g ≡ some v)
  Climbs-known zero p k known c nk = rw (← c) (known (rw c nk))
  Climbs-known (suc n) p k known (q, e, c) nk = elim (Option-cases (lookup p g)) [
    | inl h ↦ absurd (ground arith)
    | inr (v, h) ↦
        Climbs-known n q k
          (λ nq. let e' : v.reports_to ≡ q = ground arith in rw (← e') (f.closed p v h (rw e' nq)))
          c nk
  ]

  -- Nothing stands above the root.
  pub blank_avoids : (k : Text) → k ≢ [] → (n : ℕ) → ¬ Climbs g n [] k
  blank_avoids k nk zero c = nk (sym c)
  blank_avoids k nk (suc n) (p, e, c) = absurd (ground (arith, f.no_blank))

  insert-closed :
      (k : Text) (w : Worker)
      → (w.reports_to ≢ [] → (v : Worker) × (lookup w.reports_to g ≡ some v))
      → (j : Text) (x : Worker) → lookup j (insert k w g) ≡ some x
      → x.reports_to ≢ []
      → (v : Worker) × (lookup x.reports_to (insert k w g) ≡ some v)
  insert-closed k w up j x h nx = present (elim (Bool-cases (eqb k j)) [
    | inl e ↦ let s : x ≡ w = ground (arith, lookup-insert k j w g) in rw s (up (rw (← s) nx))
    | inr ne ↦ f.closed j x (ground (arith, lookup-insert k j w g)) nx
  ])
    where
      present :
          (v : Worker) × (lookup x.reports_to g ≡ some v)
          → (v : Worker) × (lookup x.reports_to (insert k w g) ≡ some v)
      present (v, e) = elim (Bool-cases (eqb k x.reports_to)) [
        | inl a ↦ (w, ground (arith, lookup-insert k x.reports_to w g))
        | inr a ↦ (v, ground (arith, lookup-insert k x.reports_to w g))
      ]

  pub insert-IsForest :
      (k : Text) (w : Worker)
      → w.id ≡ k
      → k ≢ []
      → (w.reports_to ≢ [] → (v : Worker) × (lookup w.reports_to g ≡ some v))
      → ((n : ℕ) → ¬ Climbs g n w.reports_to k)
      → IsForest (insert k w g)
  insert-IsForest k w i nk up avoid = record {
    keyed = λ j x h. ground (arith, lookup-insert k j w g, eqb_iff k j, f.keyed j x);
    no_blank = ground (arith, lookup-insert k [] w g, eqb_iff k [], f.no_blank);
    closed = insert-closed k w up;
    acyclic = insert-IsAcyclic g k w f.acyclic avoid;
    distinct = insert-Distinct k w g f.distinct;
  }
