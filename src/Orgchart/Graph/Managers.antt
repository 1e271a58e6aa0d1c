-- ===== src/Orgchart/Graph/Managers.antt =====
-- Ancestors: the loop returns on every graph, also on one with a cycle, and on a forest it lists the
-- whole chain of managers.
use robotdreams.Base.{
  ℕ, zero, suc, ◌≤◌, ◌<◌, ◌≡◌, refl, sym, subst, ◌⊎◌, Text, eqb, eqb_iff, is_empty, lookup, length,
  keep, none, some, arith, false, not, Option-cases, Bool-cases, inl, inr, List, [], ◌∷◌, ok, err,
  All,
}
use robotdreams.Orgchart.Graph.{Graph, Worker, ancestors, ancestors_from, seen_in, not_found}
use robotdreams.Orgchart.Graph.Chains.{
  manager, manager_of_some, Links, Climbs, Links-le-length, not-Climbs_self,
}
use robotdreams.Orgchart.Graph.Forest.{IsForest}

-- How many workers the loop has not passed.
unseen : Graph → List Text → ℕ
unseen g seen = length (keep (λ e. not (seen_in e.0 seen)) g)

unseen-cons-le : (g : Graph) (j : Text) (seen : List Text) → unseen g (j ∷ seen) ≤ unseen g seen
unfolding unseen
unseen-cons-le [] j seen = omega arith
unseen-cons-le ((i, v) ∷ g) j seen = ground (arith, unseen-cons-le g j seen)

-- A worker that is marked for the first time makes the number fall.
unseen-cons-lt :
    (g : Graph) (j : Text) (v : Worker) (seen : List Text)
    → lookup j g ≡ some v
    → seen_in j seen ≡ false
    → unseen g (j ∷ seen) < unseen g seen
unfolding unseen lookup
unseen-cons-lt [] j v seen h n = cc
unseen-cons-lt ((i, w) ∷ g) j v seen h n =
    ground (arith, eqb_iff i j, unseen-cons-le g j seen, unseen-cons-lt g j v seen, unseen)

unseen-le-length : (g : Graph) (seen : List Text) → unseen g seen ≤ length g
unfolding unseen
unseen-le-length [] seen = omega arith
unseen-le-length ((i, v) ∷ g) seen = ground (arith, unseen-le-length g seen)

ancestors_from_ends :
    (fuel : ℕ) (g : Graph) (seen : List Text) (w : Worker)
    → ((k : Text) (v : Worker) → lookup k g ≡ some v → v.id ≡ k)
    → unseen g seen < fuel
    → (out : List Worker) × (ancestors_from fuel g seen w ≡ some out)
unfolding ancestors_from
ancestors_from_ends zero g seen w keyed h = absurd (omega arith)
ancestors_from_ends (suc fuel) g seen w keyed h = elim (Bool-cases (is_empty w.reports_to)) [
  | inl e ↦ ([], rw e)
  | inr ne ↦ elim (Option-cases (lookup w.reports_to g)) [
    | inl e ↦ ([], rw (ne, e))
    | inr (p, e) ↦ elim (Bool-cases (seen_in p.id seen)) [
      | inl s ↦ ([], rw (ne, e, s))
      | inr ns ↦
          let (out, r) = ancestors_from_ends fuel g (p.id ∷ seen) p keyed (
            omega
              (arith, unseen-cons-lt g p.id p seen (ground (arith, keyed w.reports_to p)) ns)) in
          (p ∷ out, rw (ne, e, ns, r))
    ]
  ]
]

-- On any graph whose workers stand under their own ids, with cycles or without, Ancestors returns:
-- the error for an id that is no worker's, and a list for one that is.
pub ancestors_returns :
    (g : Graph) (k : Text)
    → ((j : Text) (v : Worker) → lookup j g ≡ some v → v.id ≡ j)
    → ((lookup k g ≡ none) × (ancestors g k ≡ some (err not_found)))
      ⊎ ((w : Worker) × (out : List Worker) × (lookup k g ≡ some w)
          × (ancestors g k ≡ some (ok out)))
unfolding ancestors
ancestors_returns g k keyed = elim (Option-cases (lookup k g)) [
  | inl e ↦ inl (e, ground arith)
  | inr (w, e) ↦
      let (out, r) =
        ancestors_from_ends (suc (length g)) g (k ∷ []) w keyed
          (omega (arith, unseen-le-length g (k ∷ []))) in
      inr (w, out, e, ground arith)
]

-- `out` is the chain of managers above `w`, nearest first, up to the one who reports to nobody.
pub data Chain (g : Graph) : Worker → List Worker → Type 0 where
  top : (w : Worker) → lookup w.reports_to g ≡ none → Chain g w []
  above :
      (w p : Worker) (out : List Worker)
      → lookup w.reports_to g ≡ some p
      → Chain g p out
      → Chain g w (p ∷ out)

-- Every id seen so far stands at or below `k`.
abbrev AllBelow : Graph → List Text → Text → Type 0
AllBelow g seen k = All (λ s. (n : ℕ) × Climbs g n s k) seen

pub Climbs-snoc :
    (g : Graph) (n : ℕ) (s k p : Text)
    → Climbs g n s k
    → manager g k ≡ some p
    → Climbs g (suc n) s p
Climbs-snoc g zero s k p c e = (p, rw c e, refl)
Climbs-snoc g (suc n) s k p (q, m, c) e = (q, m, Climbs-snoc g n q k p c e)

AllBelow-snoc :
    (g : Graph) (seen : List Text) (k p : Text)
    → AllBelow g seen k
    → manager g k ≡ some p
    → AllBelow g seen p
AllBelow-snoc g [] k p b e = tt
AllBelow-snoc g (s ∷ seen) k p ((n, c), b) e =
    ((suc n, Climbs-snoc g n s k p c e), AllBelow-snoc g seen k p b e)

module _ {g : Graph} (f : IsForest g) where
  -- What stands above everything seen was not seen.
  above_unseen :
      (seen : List Text) (k p : Text) (v : Worker)
      → AllBelow g seen k
      → manager g k ≡ some p
      → lookup p g ≡ some v
      → seen_in p seen ≡ false
  above_unseen [] k p v b e h = refl
  above_unseen (s ∷ seen) k p v ((n, c), b) e h = elim (Bool-cases (eqb p s)) [
    | inl a ↦
        let (m, l) = f.acyclic s in
        absurd (
          not-Climbs_self g m n s l
            (subst (Climbs g (suc n) s) ((eqb_iff p s).0 a) (Climbs-snoc g n s k p c e)))
    | inr a ↦ rw a (above_unseen seen k p v b e h)
  ]

  ancestors_from-Chain :
      (fuel : ℕ) (seen : List Text) (w : Worker) (m : ℕ)
      → lookup w.id g ≡ some w
      → AllBelow g seen w.id
      → Links g m w.reports_to
      → m < fuel
      → (out : List Worker) × (ancestors_from fuel g seen w ≡ some out) × Chain g w out
  unfolding ancestors_from
  ancestors_from-Chain zero seen w m h b l lt = absurd (omega arith)
  ancestors_from-Chain (suc fuel) seen w zero h b l lt =
      let e : lookup w.reports_to g ≡ none = ground arith in ([], ground arith, top w e)
  ancestors_from-Chain (suc fuel) seen w (suc m) h b (q, e, l) lt =
      let (p, a, s) = manager_of_some g w.reports_to q e in
      let i : p.id ≡ w.reports_to = f.keyed w.reports_to p a in
      let up : manager g w.id ≡ some p.id = ground arith in
      let here : lookup p.id g ≡ some p = ground arith in
      let (out, r, c) =
        ancestors_from-Chain fuel (p.id ∷ seen) p m here
          ((0, refl), AllBelow-snoc g seen w.id p.id b up) (subst (Links g m) (sym s) l)
          (omega arith) in
      (
        p ∷ out,
        ground (arith, above_unseen seen w.id p.id p b up here, f.no_blank),
        above w p out a c,
      )

  -- On a forest, Ancestors of a worker is its whole chain of managers, nearest first.
  pub ancestors-Chain :
      (k : Text) (w : Worker)
      → lookup k g ≡ some w
      → (out : List Worker) × (ancestors g k ≡ some (ok out)) × Chain g w out
  unfolding ancestors
  ancestors-Chain k w h =
      let i : w.id ≡ k = f.keyed k w h in
      let (m, l) = f.acyclic w.reports_to in
      let (out, r, c) =
        ancestors_from-Chain (suc (length g)) (k ∷ []) w m (ground arith) ((0, sym i), tt) l
          (omega (arith, Links-le-length m g w.reports_to l)) in
      (out, ground arith, c)
