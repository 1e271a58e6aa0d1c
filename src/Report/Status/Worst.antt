-- ===== src/Report/Status/Worst.antt =====
-- The roll-up of statuses of pkg/reporting/aggregate.go.
use robotdreams.Base.{
  ◌≤◌, ◌<◌, ◌≡◌, refl, ◌⊎◌, inl, inr, arith, Bool-cases, ltb, ltb→lt, lt→ltb, Text, In, All, map,
  List, [], ◌∷◌,
}
use robotdreams.Report.Floats.{Float}
use robotdreams.Report.Model.{Definition, Instance, status_ok}
use robotdreams.Report.Status.{worst_status, worst_from, instance_status, status_rank, worse_of}

worse_of_cases :
    (w s : Text)
    → (status_rank w ≤ status_rank (worse_of w s))
      × (status_rank s ≤ status_rank (worse_of w s))
      × ((worse_of w s ≡ w) ⊎ (worse_of w s ≡ s))
unfolding worse_of
worse_of_cases w s =
    let c = ltb→lt (status_rank w) (status_rank s) in
    let d = lt→ltb (status_rank w) (status_rank s) in
    elim (Bool-cases (ltb (status_rank w) (status_rank s))) [
      | inl b ↦
          let e : worse_of w s ≡ s = rw b refl in
          let l : status_rank w < status_rank s = c b in rw e (omega arith, omega arith, inr refl)
      | inr b ↦
          let e : worse_of w s ≡ w = rw b refl in
          let l : status_rank w < status_rank s → ⊥ = λ k. let e = d k in cc in
          rw e (omega arith, omega (arith, l), inl refl)
    ]

module _ {F : Type 0} ⦃f : Float F⦄ where
  -- The start and all statuses are at most as bad as the worst, which is one of them.
  worst_from_lem :
      (def : Definition F) (w : Text) (is : List (Instance F))
      → (status_rank w ≤ status_rank (worst_from def w is))
        × (All (λ i. status_rank (instance_status def i) ≤ status_rank (worst_from def w is)) is
            × ((worst_from def w is ≡ w) ⊎ In (worst_from def w is) (map (instance_status def) is)))
  unfolding worst_from
  worst_from_lem def w [] = (omega arith, (tt, inl refl))
  worst_from_lem def w (i ∷ is) =
      let s = instance_status def i in
      let c = worse_of_cases w s in
      let ih = worst_from_lem def (worse_of w s) is in
      (
        omega arith,
        (
          (omega arith, ih.1.0),
          elim ih.1.1 [
            | inr m ↦ inr (inr m)
            | inl e ↦ elim c.2 [ inl a ↦ inl (cc) | inr a ↦ inr (inl (cc)) ]
          ],
        ),
      )

  -- The worst status of instances is at least as bad as that of each, and is ok or that of one of
  -- them.
  pub worst_status_lem :
      (def : Definition F) (is : List (Instance F))
      → All (λ i. status_rank (instance_status def i) ≤ status_rank (worst_status def is)) is
        × ((worst_status def is ≡ status_ok)
            ⊎ In (worst_status def is) (map (instance_status def) is))
  unfolding worst_status
  worst_status_lem def is = (worst_from_lem def status_ok is).1
