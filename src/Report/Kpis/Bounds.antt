-- ===== src/Report/Kpis/Bounds.antt =====
-- What the policies for indicators of pkg/reporting/aggregate.go pick.
use robotdreams.Base.{
  ◌⊎◌, ℕ, zero, suc, sym, ◌∙◌, subst, if◌then◌else◌, not, ◌&&◌, ◌-◌, ◌≤◌, ◌<◌, ◌≡◌, refl, inl, inr,
  arith, Bool-cases, codes, eqb, In, All, length, order_by, In-of_order_by, length-order_by,
  IsWeakOrder, List, [], ◌∷◌, Bool, true, false,
}
use robotdreams.Report.Floats.{Float, IsOrderly}
use robotdreams.Report.Policy.{Policy}
use robotdreams.Report.Kpis.{
  minimum, maximum, percentile, rank_of, value_at, last_of, apply_kpi_policy, apply_nonempty,
}

-- The policies that pick a value: all but those that count or add up.
abbrev pub is_pick : Policy → Bool
is_pick p =
    not (eqb p.name (codes "count"))
    && (not (eqb p.name (codes "sum")) && not (eqb p.name (codes "avg")))

In-if :
    {A : Type 0} (b : Bool) (x y : A) (xs : List A) → In x xs → In y xs → In (if b then x else y) xs
In-if true x y xs h k = h
In-if false x y xs h k = k

module _ {F : Type 0} ⦃f : Float F⦄ where
  minimum-In : (m : F) (vs : List F) → In (minimum m vs) (m ∷ vs)
  unfolding minimum
  minimum-In m [] = inl refl
  minimum-In m (v ∷ vs) = elim (minimum-In (if f.lt v m then v else m) vs) [
    | inr h ↦ inr (inr h)
    | inl e ↦ elim (Bool-cases (f.lt v m)) [
      | inl b ↦ inr (inl (e ∙ rw b refl))
      | inr b ↦ inl (e ∙ rw b refl)
    ]
  ]

  maximum-In : (m : F) (vs : List F) → In (maximum m vs) (m ∷ vs)
  unfolding maximum
  maximum-In m [] = inl refl
  maximum-In m (v ∷ vs) = elim (maximum-In (if f.lt m v then v else m) vs) [
    | inr h ↦ inr (inr h)
    | inl e ↦ elim (Bool-cases (f.lt m v)) [
      | inl b ↦ inr (inl (e ∙ rw b refl))
      | inr b ↦ inl (e ∙ rw b refl)
    ]
  ]

  last_of-In : (v : F) (vs : List F) → In (last_of v vs) (v ∷ vs)
  last_of-In v [] = inl refl
  last_of-In v (w ∷ ws) = inr (last_of-In w ws)

  -- Nothing is less than the minimum.
  minimum_le :
      IsWeakOrder f.lt → (m : F) (vs : List F) → All (λ v. f.lt v (minimum m vs) ≡ false) (m ∷ vs)
  unfolding minimum
  minimum_le w m [] = (lt_irrefl w m, tt)
    where
      lt_irrefl : IsWeakOrder f.lt → (x : F) → f.lt x x ≡ false
      lt_irrefl w x = elim (Bool-cases (f.lt x x)) [ inl b ↦ w.asym x x b | inr b ↦ b ]
  minimum_le w m (v ∷ vs) =
      let least = minimum (if f.lt v m then v else m) vs in
      let ih = minimum_le w (if f.lt v m then v else m) vs in
      let IsBound : F → Type 0 = λ x. f.lt x least ≡ false in
      elim (Bool-cases (f.lt v m)) [
        | inl b ↦
            let h : IsBound v = subst IsBound (rw b refl) ih.0 in
            (w.cotrans m v least (w.asym v m b) h, (h, ih.1))
        | inr b ↦
            let h : IsBound m = subst IsBound (rw b refl) ih.0 in
            (h, (w.cotrans v m least b h, ih.1))
      ]

  -- A rank is in range.
  rank_bounds :
      IsOrderly F → (p : ℕ) (vs : List F) → p ≤ 100 → 0 < length vs → rank_of p vs - 1 < length vs
  unfolding rank_of
  rank_bounds o p vs h pos = let s = o.share_le p (length vs) h in ground arith

  value_at-In : (vs : List F) (i : ℕ) → i < length vs → In (value_at vs i) vs
  value_at-In [] i h = absurd (omega arith)
  value_at-In (v ∷ vs) zero h = inl refl
  value_at-In (v ∷ vs) (suc i) h = inr (value_at-In vs i (omega arith))

  percentile-In :
      IsOrderly F → (vs : List F) (p : ℕ) → p ≤ 100 → 0 < length vs → In (percentile vs p) vs
  unfolding percentile
  percentile-In o vs p h pos =
      let sorted = order_by f.lt vs in
      In-of_order_by f.lt (percentile vs p) vs (
        value_at-In sorted (rank_of p vs - 1)
          (omega (arith, rank_bounds o p vs h pos, length-order_by f.lt vs)))

  -- Of several values, every policy but `count`, `sum` and `avg` picks one that is among them, where
  -- the share of a percentile is at most the whole; `min` picks one that none is less than.
  pub apply_kpi_policy_picks :
      IsOrderly F
      → (p : Policy) (v : F) (vs : List F) → is_pick p ≡ true
      → In (apply_kpi_policy p (v ∷ vs)) (v ∷ vs)
        × ((eqb p.name (codes "min") ≡ false)
            ⊎ All (λ u. f.lt u (apply_kpi_policy p (v ∷ vs)) ≡ false) (v ∷ vs))
  unfolding apply_kpi_policy apply_nonempty
  apply_kpi_policy_picks o p v vs h =
      let c : eqb p.name (codes "count") ≡ false = ground arith in
      let s : eqb p.name (codes "sum") ≡ false = ground arith in
      let a : eqb p.name (codes "avg") ≡ false = ground arith in
      let vals = v ∷ vs in
      let rest =
        (if eqb p.name (codes "max")
          then maximum v vs
          else if eqb p.name (codes "p50")
          then percentile vals 50
          else if eqb p.name (codes "p95")
          then percentile vals 95
          else last_of v vs) in
      let picked : In rest vals = In-if (eqb p.name (codes "max")) _ _ vals (maximum-In v vs) (
        In-if (eqb p.name (codes "p50")) _ _ vals
          (percentile-In o vals 50 (omega arith) (omega arith))
          (In-if (eqb p.name (codes "p95")) _ _ vals
            (percentile-In o vals 95 (omega arith) (omega arith)) (last_of-In v vs))) in
      let Goal : F → Type 0 =
        λ r. In r vals × ((eqb p.name (codes "min") ≡ false) ⊎ All (λ u. f.lt u r ≡ false) vals) in
      elim (Bool-cases (eqb p.name (codes "min"))) [
        | inl b ↦
            let e : apply_kpi_policy p vals ≡ minimum v vs = rw (c, s, a, b) refl in
            subst Goal (sym e) (minimum-In v vs, inr (minimum_le o.weak v vs))
        | inr b ↦
            let e : apply_kpi_policy p vals ≡ rest = rw (c, s, a, b) refl in
            subst Goal (sym e) (picked, inl b)
      ]
