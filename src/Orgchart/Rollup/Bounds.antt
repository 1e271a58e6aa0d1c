-- ===== src/Orgchart/Rollup/Bounds.antt =====
-- What the summary of `RollupWithActivity` says of the direct reports.
use robotdreams.Base.{
  ℕ, ◌+◌, ◌≤◌, ◌≡◌, refl, ◌⊎◌, inl, inr, Text, Assoc, length, Bool, List, [], ◌∷◌, ok, arith,
  Bool-cases, ltb, All, keep, In,
}
use robotdreams.Orgchart.Graph.{Graph, Worker, children}
use robotdreams.Orgchart.Rollup.{
  RollupSummary, ActivityInfo, activity_of, is_connected, count_report, tally, rollup_with_activity,
}

abbrev active : Assoc ActivityInfo → Worker → Bool
active activity c = is_connected (activity_of activity c).status

module _ (activity : Assoc ActivityInfo) where
  tally_direct :
      (sum : RollupSummary) (cs : List Worker)
      → (tally activity sum cs).direct_reports ≡ sum.direct_reports
  unfolding tally count_report
  tally_direct sum [] = refl
  tally_direct sum (c ∷ cs) = tally_direct (count_report activity sum c) cs

  tally-active :
      (sum : RollupSummary) (cs : List Worker)
      → (tally activity sum cs).active_count ≡ sum.active_count + length (keep (active activity) cs)
  unfolding tally count_report
  tally-active sum [] = omega arith
  tally-active sum (c ∷ cs) = ground (arith, tally-active (count_report activity sum c) cs)

  tally_grows :
      (sum : RollupSummary) (cs : List Worker)
      → sum.last_activity ≤ (tally activity sum cs).last_activity
  unfolding tally count_report
  tally_grows sum [] = omega arith
  tally_grows sum (c ∷ cs) = ground (arith, tally_grows (count_report activity sum c) cs)

  -- No report was seen after the time that the loop ends with.
  abbrev pub SeenBy : ℕ → List Worker → Type 0
  SeenBy t = All (λ c. (activity_of activity c).last_seen_at ≤ t)

  tally-SeenBy :
      (sum : RollupSummary) (cs : List Worker) → SeenBy (tally activity sum cs).last_activity cs
  unfolding tally count_report
  tally-SeenBy sum [] = tt
  tally-SeenBy sum (c ∷ cs) = (
    ground (arith, tally_grows (count_report activity sum c) cs),
    tally-SeenBy (count_report activity sum c) cs,
  )

  -- The time that the loop ends with is the one it began with or that of a report.
  tally_attained :
      (sum : RollupSummary) (cs : List Worker)
      → ((tally activity sum cs).last_activity ≡ sum.last_activity)
        ⊎ ((c : Worker) × In c cs
            × ((tally activity sum cs).last_activity ≡ (activity_of activity c).last_seen_at))
  unfolding tally count_report
  tally_attained sum [] = inl refl
  tally_attained sum (c ∷ cs) = elim (tally_attained (count_report activity sum c) cs) [
    | inr (d, i, e) ↦ inr (d, inr i, e)
    | inl e ↦ elim (Bool-cases (ltb sum.last_activity (activity_of activity c).last_seen_at)) [
      | inl s ↦ inr (c, inl refl, ground arith)
      | inr s ↦ inl (ground arith)
    ]
  ]

  -- Where the worker is there, the summary counts its direct reports and those among them that are
  -- connected, by the activity map where it has them; no report was seen after the last activity,
  -- and the last activity is the zero time or the time at which a report was seen.
  pub rollup_exact :
      (g : Graph) (k : Text) (cs : List Worker)
      → children g k ≡ ok cs
      → (s : RollupSummary) × (rollup_with_activity g k activity ≡ ok s)
        × (s.direct_reports ≡ length cs)
        × (s.active_count ≡ length (keep (active activity) cs))
        × SeenBy s.last_activity cs
        × ((s.last_activity ≡ 0)
            ⊎ ((c : Worker) × In c cs × (s.last_activity ≡ (activity_of activity c).last_seen_at)))
  unfolding rollup_with_activity
  rollup_exact g k cs e = (
    tally activity start cs,
    rw (e, rollup_with_activity),
    tally_direct start cs,
    omega (arith, tally-active start cs),
    tally-SeenBy start cs,
    tally_attained start cs,
  )
    where
      start : RollupSummary
      start = record { direct_reports = length cs; active_count = 0; last_activity = 0 }
