-- ===== src/Orgchart/Graph/Descent.antt =====
-- Descendants: on a forest the breadth-first search ends, and finds exactly the workers below.
use robotdreams.Base.{
  ℕ, zero, suc, ◌+◌, ◌≤◌, ◌<◌, ◌≡◌, refl, sym, subst, ◌≢◌, ◌∙◌, Text, lookup, length, some, arith,
  Option-cases, inl, inr, List, [], ◌∷◌, ◌++◌, ok, In, In-append_left, In-append_right,
  In-append_cases,
}
use robotdreams.Orgchart.Graph.{Graph, Worker, next_level, descend, descendants}
use robotdreams.Orgchart.Graph.Chains.{
  manager, manager_of_some, Links, Climbs, Links-Climbs, Links-le-length,
}
use robotdreams.Orgchart.Graph.Forest.{IsForest}
use robotdreams.Orgchart.Graph.Levels.{ids, In-ids, In-ids_elim, In-next_level, In-next_level_intro}

-- Every id of the frontier stands `d` links below `root`.
abbrev AllAt : Graph → ℕ → Text → List Text → Type 0
AllAt g d root fr = (k : Text) → In k fr → Climbs g d k root

-- The last link of a climb.
Climbs-last :
    (g : Graph) (n : ℕ) (k a : Text)
    → Climbs g (suc n) k a
    → (c : Text) × Climbs g n k c × (manager g c ≡ some a)
Climbs-last g zero k a (p, e, c) = (k, refl, subst (λ x. manager g k ≡ some x) c e)
Climbs-last g (suc n) k a (p, e, c) = let (q, r, s) = Climbs-last g n p a c in (q, (p, e, r), s)

module _ {g : Graph} (f : IsForest g) where
  -- A worker that a round adds stands one link further down.
  next_level-AllAt :
      (d : ℕ) (root : Text) (fr : List Text)
      → AllAt g d root fr
      → AllAt g (suc d) root (ids (next_level g fr))
  next_level-AllAt d root fr at k h =
      let (w, i, e) = In-ids_elim k (next_level g fr) h in
      let (l, r) = In-next_level f w fr i in (w.reports_to, ground (arith, e), at w.reports_to r)

  -- No frontier is as deep as there are workers.
  depth_bound :
      (d : ℕ) (root k : Text) (v : Worker)
      → lookup root g ≡ some v
      → Climbs g d k root
      → suc d ≤ length g
  depth_bound d root k v e c =
      let (m, l) = f.acyclic k in
      let (r, lr, s) = Links-Climbs g m d k root l c in
      omega (arith, Links-le-length m g k l, ends_below r lr)
    where
      ends_below : (r : ℕ) → Links g r root → 0 < r
      ends_below zero lr = absurd (ground arith)
      ends_below (suc r) lr = omega arith

  descend_ends :
      (fuel d : ℕ) (root : Text) (v : Worker) (fr : List Text)
      → lookup root g ≡ some v
      → AllAt g d root fr
      → 0 < fuel
      → length g < fuel + d
      → (out : List Worker) × (descend fuel g fr ≡ some out)
  unfolding descend
  descend_ends zero d root v fr e at pos lt = absurd (omega arith)
  descend_ends (suc fuel) d root v [] e at pos lt = ([], refl)
  descend_ends (suc fuel) d root v (k ∷ fr) e at pos lt =
      let bound = depth_bound d root k v e (at k (inl refl)) in
      let (out, r) =
        descend_ends fuel (suc d) root v (ids (next_level g (k ∷ fr))) e
          (next_level-AllAt d root (k ∷ fr) at) (omega arith) (omega arith) in
      (next_level g (k ∷ fr) ++ out, ground arith)

  descend_sound :
      (fuel d : ℕ) (root : Text) (fr : List Text) (out : List Worker) (w : Worker)
      → AllAt g d root fr
      → descend fuel g fr ≡ some out
      → In w out
      → (lookup w.id g ≡ some w) × ((n : ℕ) × Climbs g (suc n) w.id root)
  unfolding descend
  descend_sound zero d root fr out w at h i = cc
  descend_sound (suc fuel) d root [] out w at h i =
      let e : out ≡ [] = ground arith in absurd (subst (In w) e i)
  descend_sound (suc fuel) d root (k ∷ fr) out w at h i =
      elim (Option-cases (descend fuel g (ids (next_level g (k ∷ fr))))) [
        | inl e ↦ absurd (ground arith)
        | inr (rest, e) ↦
            let s : out ≡ next_level g (k ∷ fr) ++ rest = ground arith in
            elim (In-append_cases w (next_level g (k ∷ fr)) rest (subst (In w) s i)) [
              | inl a ↦
                  let (l, r) = In-next_level f w (k ∷ fr) a in
                  (l, (d, (w.reports_to, ground arith, at w.reports_to r)))
              | inr b ↦
                  descend_sound fuel (suc d) root (ids (next_level g (k ∷ fr))) rest w
                    (next_level-AllAt d root (k ∷ fr) at) e b
            ]
      ]

  -- The worker under `a` on a climb to `a` is among those that a round over `a` adds.
  report_found :
      (a q : Text) (fr : List Text)
      → In a fr
      → a ≢ []
      → manager g q ≡ some a
      → (x : Worker) × In x (next_level g fr) × (lookup q g ≡ some x) × (x.id ≡ q)
  report_found a q fr h na m =
      let (x, l, s) = manager_of_some g q a m in
      let i : x.id ≡ q = f.keyed q x l in
      let here : lookup x.id g ≡ some x = ground arith in
      let up : x.reports_to ≢ [] = λ z. na (sym s ∙ z) in
      (x, In-next_level_intro f x fr here up (subst (λ y. In y fr) (sym s) h), l, i)

  descend_complete :
      (fuel n : ℕ) (a : Text) (fr : List Text) (out : List Worker) (w : Worker)
      → In a fr
      → a ≢ []
      → lookup w.id g ≡ some w
      → Climbs g (suc n) w.id a
      → descend fuel g fr ≡ some out
      → In w out
  unfolding descend
  descend_complete zero n a fr out w h na e c r = cc
  descend_complete (suc fuel) n a [] out w h na e c r = elim h [ ]
  descend_complete (suc fuel) zero a (k ∷ fr) out w h na e c r =
      let level = next_level g (k ∷ fr) in
      let (q, b, m) = Climbs-last g 0 w.id a c in
      let (x, i, l, j) = report_found a q (k ∷ fr) h na m in
      let same : x ≡ w = ground arith in
      elim (Option-cases (descend fuel g (ids level))) [
        | inl s ↦ absurd (ground arith)
        | inr (rest, s) ↦
            let t : level ++ rest ≡ out = ground arith in
            subst (In w) t (In-append_left w level rest (subst (λ y. In y level) same i))
      ]
  descend_complete (suc fuel) (suc n) a (k ∷ fr) out w h na e c r =
      let level = next_level g (k ∷ fr) in
      let (q, b, m) = Climbs-last g (suc n) w.id a c in
      let (x, i, l, j) = report_found a q (k ∷ fr) h na m in
      let inside = subst (λ y. In y (ids level)) j (In-ids x level i) in
      let nq : q ≢ [] = λ z. ground (arith, f.no_blank) in
      elim (Option-cases (descend fuel g (ids level))) [
        | inl s ↦ absurd (ground arith)
        | inr (rest, s) ↦
            let t : level ++ rest ≡ out = ground arith in
            let deeper = descend_complete fuel n q (ids level) rest w inside nq e b s in
            subst (In w) t (In-append_right w level rest deeper)
      ]

  -- On a forest, Descendants of a worker returns, what it returns are workers with the given one
  -- among their managers, and every worker with the given one among its managers is returned.
  pub descendants_exact :
      (k : Text) (v : Worker)
      → lookup k g ≡ some v
      → (out : List Worker) × (descendants g k ≡ some (ok out))
        × ((w : Worker) → In w out → (lookup w.id g ≡ some w) × ((n : ℕ) × Climbs g (suc n) w.id k))
        × ((w : Worker) (n : ℕ) → lookup w.id g ≡ some w → Climbs g (suc n) w.id k → In w out)
  unfolding descendants
  descendants_exact k v e =
      let (out, r) =
        descend_ends (suc (length g)) 0 k v (k ∷ []) e start (omega arith) (omega arith) in
      (
        out,
        ground arith,
        λ w i. descend_sound (suc (length g)) 0 k (k ∷ []) out w start r i,
        λ w n l c. descend_complete (suc (length g)) n k (k ∷ []) out w (inl refl) blank l c r,
      )
    where
      start : AllAt g 0 k (k ∷ [])
      start j (inl s) = s
      start j (inr h) = elim h [ ]

      blank : k ≢ []
      blank z = ground (arith, f.no_blank)
