-- ===== src/Orgchart/Graph/Chains.antt =====
-- The chain of managers above a worker, for every graph: how it is climbed, where it ends, and that
-- a chain which ends has at most as many links as there are workers.
use mathlib.Core.Option
use robotdreams.Base.{
  ℕ, zero, suc, ◌+◌, ◌≤◌, ◌≡◌, refl, ap, ◌∙◌, Text, eqb_iff, lookup, erase, lookup-erase,
  length-erase-lt, length, Option, none, some, arith, ◌≢◌, Option-cases, inl, inr,
}
use robotdreams.Orgchart.Graph.{Graph, Worker}

-- Whom a worker reports to; `none` for an id that no worker has.
abbrev pub manager : Graph → Text → Option Text
manager g k = Option.map (λ w. w.reports_to) (lookup k g)

-- The chain of managers from `k` leaves the graph after exactly `n` links.
abbrev pub Links : Graph → ℕ → Text → Type 0
Links g zero k = manager g k ≡ none
Links g (suc n) k = (p : Text) × (manager g k ≡ some p) × Links g n p

-- `n` links up from `k` stands `a`.
abbrev pub Climbs : Graph → ℕ → Text → Text → Type 0
Climbs g zero k a = k ≡ a
Climbs g (suc n) k a = (p : Text) × (manager g k ≡ some p) × Climbs g n p a

-- Every chain of managers ends.
abbrev pub IsAcyclic : Graph → Type 0
IsAcyclic g = (k : Text) → (n : ℕ) × Links g n k

pub Links-unique : (g : Graph) (m n : ℕ) (k : Text) → Links g m k → Links g n k → m ≡ n
Links-unique g zero zero k a b = refl
Links-unique g zero (suc n) k a (p, e, b) = cc
Links-unique g (suc m) zero k (p, e, a) b = cc
Links-unique g (suc m) (suc n) k (p, e, a) (q, f, b) =
    ap suc (Links-unique g m n q (subst_links (ground arith)) b)
  where
    subst_links : p ≡ q → Links g m q
    subst_links r = rw (← r) a

pub Links-Climbs :
    (g : Graph) (m n : ℕ) (k a : Text)
    → Links g m k
    → Climbs g n k a
    → (r : ℕ) × Links g r a × (m ≡ n + r)
Links-Climbs g m zero k a l e = (m, rw (← e) l, omega arith)
Links-Climbs g zero (suc n) k a l (p, e, c) = cc
Links-Climbs g (suc m) (suc n) k a (q, f, l) (p, e, c) =
    let (r, lr, s) = Links-Climbs g m n p a (move (ground arith)) c in (r, lr, omega arith)
  where
    move : q ≡ p → Links g m p
    move s = rw (← s) l

-- No worker of an ending chain stands above itself.
pub not-Climbs_self : (g : Graph) (m n : ℕ) (k : Text) → Links g m k → ¬ Climbs g (suc n) k k
not-Climbs_self g m n k l c =
    let (r, lr, e) = Links-Climbs g m (suc n) k k l c in
    absurd (omega (arith, Links-unique g m r k l lr))

manager-erase : (g : Graph) (k j : Text) → k ≢ j → manager (erase k g) j ≡ manager g j
manager-erase g k j h = ground (arith, lookup-erase k j g, eqb_iff k j)

manager-erase-none : (g : Graph) (k j : Text) → manager g j ≡ none → manager (erase k g) j ≡ none
manager-erase-none g k j h = ground (arith, lookup-erase k j g)

-- A chain that avoids `k` stays when `k` is taken out.
pub Links-erase :
    (g : Graph) (k : Text) (m : ℕ) (p : Text)
    → ((j : ℕ) → j ≤ m → ¬ Links g j k)
    → Links g m p
    → Links (erase k g) m p
Links-erase g k zero p avoid l = manager-erase-none g k p l
Links-erase g k (suc m) p avoid (q, e, l) =
    (q, manager-erase g k p apart ∙ e, Links-erase g k m q (λ j h. avoid j (omega arith)) l)
  where
    apart : k ≢ p
    apart s = avoid (suc m) (omega arith) (q, rw s e, l)

lookup_of_manager :
    (g : Graph) (k p : Text) → manager g k ≡ some p → (w : Worker) × (lookup k g ≡ some w)
lookup_of_manager g k p e = elim (Option-cases (lookup k g)) [ inl h ↦ ground arith | inr s ↦ s ]

pub manager_of_some :
    (g : Graph) (k p : Text)
    → manager g k ≡ some p
    → (w : Worker) × (lookup k g ≡ some w) × (w.reports_to ≡ p)
manager_of_some g k p e = elim (Option-cases (lookup k g)) [
  | inl h ↦ absurd (ground arith)
  | inr (w, h) ↦ (w, h, ground arith)
]

-- A chain that ends has at most one link for each worker.
pub Links-le-length : (m : ℕ) (g : Graph) (k : Text) → Links g m k → m ≤ length g
Links-le-length zero g k l = omega arith
Links-le-length (suc m) g k (p, e, l) =
    let (w, f) = lookup_of_manager g k p e in
    omega (
      arith,
      length-erase-lt k w g f,
      Links-le-length m (erase k g) p (
          Links-erase g k m p
            (λ j h lj. absurd (omega (arith, Links-unique g j (suc m) k lj (p, e, l)))) l),
    )
