-- ===== src/Report/Contributors/Newest.antt =====
-- Which instances stand behind an aggregate: latestPerPath of pkg/reporting/aggregate.go.
use robotdreams.Base.{
  ℕ, ◌≤◌, ◌≡◌, refl, sym, ◌∙◌, ap, subst, ◌⊎◌, inl, inr, arith, Bool-cases, ltb, Text, Assoc, eqb,
  eqb_iff, lookup, insert, erase, lookup-insert, insert-Distinct, Distinct, In-of_lookup, map, true,
  false, Option, none, some, List, [], ◌∷◌, In, All, All_of_in, All-weaken, All-order_by, IsOrdered,
  IsApart, IsWeakOrder, order_by-IsOrdered, order_by-IsApart, In-order_by, text_ltb-IsWeakOrder,
  if◌then◌else◌,
}
use robotdreams.Report.Floats.{Float}
use robotdreams.Report.Model.{Definition, Instance}
use robotdreams.Report.Contributors.{
  is_counted, latest_from, latest_per_path, contributors_in, produced_before, newer_of,
}

-- Entries of a map that all satisfy a predicate.
All-erase :
    {V : Type 0} → (P : Text × V → Type 0) (k : Text) (m : Assoc V) → All P m → All P (erase k m)
unfolding erase
All-erase P k [] a = tt
All-erase P k ((j, v) ∷ m) (p, a) = elim (Bool-cases (eqb j k)) [
  | inl b ↦ rw b (All-erase P k m a)
  | inr b ↦ rw b (p, All-erase P k m a)
]

module _ {F : Type 0} ⦃f : Float F⦄ where
  produced_before-IsWeakOrder : IsWeakOrder (produced_before {F = F})
  produced_before-IsWeakOrder =
      let u = text_ltb-IsWeakOrder in
      record {
        asym = λ x y h. let a = u.asym x.scope y.scope in ground arith;
        cotrans = λ x y z h k. let a = u.cotrans x.scope y.scope z.scope in ground arith;
      }

  -- A later instance replaces the one of its path unless that is newer.
  newer_of_lem :
      (i : Instance F) (o : Option (Instance F))
      → ((newer_of i o ≡ i) ⊎ (o ≡ some (newer_of i o)))
        × ((i.produced_at ≤ (newer_of i o).produced_at)
            × ((c : Instance F) → o ≡ some c → c.produced_at ≤ (newer_of i o).produced_at))
  newer_of_lem i none = (inl refl, (omega arith, λ c e. cc))
  newer_of_lem i (some cur) = elim (Bool-cases (ltb i.produced_at cur.produced_at)) [
    | inl b ↦ rw b (inr refl, (ground arith, λ c e. let e' : cur ≡ c = cc in rw e' (omega arith)))
    | inr b ↦ rw b (inl refl, (omega arith, λ c e. let e' : cur ≡ c = cc in ground arith))
  ]

  -- What one instance does to the map of the newest.
  abbrev with_one : Definition F → Text → Assoc (Instance F) → Instance F → Assoc (Instance F)
  with_one def scope m i =
      if is_counted def scope i then insert i.scope (newer_of i (lookup i.scope m)) m else m

  -- A predicate that an entry for a counted instance has holds of all entries.
  All-latest_from :
      (def : Definition F) (scope : Text) (P : Text × Instance F → Type 0) (is : List (Instance F))
      (m : Assoc (Instance F))
      → All (λ i. is_counted def scope i ≡ true → P (i.scope, i)) is
      → All P m
      → All P (latest_from def scope m is)
  unfolding latest_from insert
  All-latest_from def scope P [] m _ a = a
  All-latest_from def scope P (i ∷ is) m (p, ps) a =
      All-latest_from def scope P is (with_one def scope m i) ps
        (elim (Bool-cases (is_counted def scope i)) [
          | inr b ↦ rw b a
          | inl b ↦
              let o = lookup i.scope m in
              let q : P (i.scope, newer_of i o) = elim (newer_of_lem i o).0 [
                | inl e ↦ subst (λ c. P (i.scope, c)) (sym e) (p b)
                | inr e ↦
                    All_of_in P m (i.scope, newer_of i o) a
                      (In-of_lookup i.scope (newer_of i o) m e)
              ] in
              rw b (q, All-erase P i.scope m a)
        ])

  latest_from-Distinct :
      (def : Definition F) (scope : Text) (is : List (Instance F)) (m : Assoc (Instance F))
      → Distinct m
      → Distinct (latest_from def scope m is)
  unfolding latest_from
  latest_from-Distinct def scope [] m d = d
  latest_from-Distinct def scope (i ∷ is) m d =
      latest_from-Distinct def scope is (with_one def scope m i)
        (elim (Bool-cases (is_counted def scope i)) [
          | inr b ↦ rw b d
          | inl b ↦ rw b (insert-Distinct i.scope (newer_of i (lookup i.scope m)) m d)
        ])

  -- An entry of the path that is at least as new.
  abbrev HasNewer : Text → ℕ → Assoc (Instance F) → Type 0
  HasNewer path t m = (c : Instance F) × ((lookup path m ≡ some c) × (t ≤ c.produced_at))

  with_one-HasNewer :
      (def : Definition F) (scope : Text) (i : Instance F) (m : Assoc (Instance F)) (path : Text)
      (t : ℕ)
      → HasNewer path t m
      → HasNewer path t (with_one def scope m i)
  with_one-HasNewer def scope i m path t h = elim (Bool-cases (is_counted def scope i)) [
    | inr b ↦ rw b h
    | inl b ↦
        let o = lookup i.scope m in
        let n = newer_of i o in
        let l = lookup-insert i.scope path n m in
        let put : HasNewer path t (insert i.scope n m) = elim (Bool-cases (eqb i.scope path)) [
          | inr e ↦ (h.0, (l ∙ rw e h.1.0, h.1.1))
          | inl e ↦
              let s : o ≡ some h.0 = ap (λ p. lookup p m) ((eqb_iff i.scope path).0 e) ∙ h.1.0 in
              (n, (l ∙ rw e refl, omega (arith, (newer_of_lem i o).1.1 h.0 s, h.1.1)))
        ] in
        rw b put
  ]

  latest_from-HasNewer :
      (def : Definition F) (scope : Text) (is : List (Instance F)) (m : Assoc (Instance F))
      (path : Text) (t : ℕ)
      → HasNewer path t m
      → HasNewer path t (latest_from def scope m is)
  unfolding latest_from
  latest_from-HasNewer def scope [] m path t h = h
  latest_from-HasNewer def scope (i ∷ is) m path t h =
      latest_from-HasNewer def scope is (with_one def scope m i) path t
        (with_one-HasNewer def scope i m path t h)

  -- Each counted instance has one of its path in the result that is at least as new.
  latest_from_covers :
      (def : Definition F) (scope : Text) (is : List (Instance F)) (m : Assoc (Instance F))
      (i : Instance F)
      → In i is
      → is_counted def scope i ≡ true
      → HasNewer i.scope i.produced_at (latest_from def scope m is)
  unfolding latest_from
  latest_from_covers def scope [] m i h c = absurd h
  latest_from_covers def scope (j ∷ js) m i (inr h) c =
      latest_from_covers def scope js (with_one def scope m j) i h c
  latest_from_covers def scope (j ∷ js) m i (inl e) c =
      let o = lookup i.scope m in
      let n = newer_of i o in
      let put : HasNewer i.scope i.produced_at (with_one def scope m i) = rw c (
        n,
        (
          lookup-insert i.scope i.scope n m ∙ rw ((eqb_iff i.scope i.scope).1 refl) refl,
          (newer_of_lem i o).1.0,
        ),
      ) in
      latest_from-HasNewer def scope js (with_one def scope m j) i.scope i.produced_at
        (subst (λ k. HasNewer i.scope i.produced_at (with_one def scope m k)) e put)

  abbrev pub IsOtherPath : Instance F → Instance F → Type 0
  IsOtherPath a b = eqb a.scope b.scope ≡ false

  IsOtherPath-sym : (a b : Instance F) → IsOtherPath a b → IsOtherPath b a
  IsOtherPath-sym a b h = elim (Bool-cases (eqb b.scope a.scope)) [
    | inr e ↦ e
    | inl e ↦
        let q : eqb a.scope b.scope ≡ true =
          (eqb_iff a.scope b.scope).1 (sym ((eqb_iff b.scope a.scope).0 e)) in
        cc
  ]

  abbrev values : Assoc (Instance F) → List (Instance F)
  values m = map (λ e. e.1) m

  All-values :
      (P : Instance F → Type 0) (m : Assoc (Instance F)) → All (λ e. P e.1) m → All P (values m)
  All-values P [] a = tt
  All-values P (e ∷ m) (p, a) = (p, All-values P m a)

  In-values : (k : Text) (v : Instance F) (m : Assoc (Instance F)) → In (k, v) m → In v (values m)
  In-values k v [] h = absurd h
  In-values k v (e ∷ m) (inl q) = inl (ap (λ p. p.1) q)
  In-values k v (e ∷ m) (inr h) = inr (In-values k v m h)

  other_paths :
      (k : Text) (v : Instance F) (m : Assoc (Instance F))
      → k ≡ v.scope
      → lookup k m ≡ none
      → All (λ e. e.0 ≡ e.1.scope) m
      → All (IsOtherPath v) (values m)
  unfolding lookup
  other_paths k v [] e n a = tt
  other_paths k v ((j, w) ∷ m) e n (p, a) = elim (Bool-cases (eqb j k)) [
    | inl b ↦ let n' : some w ≡ none = rw b at n in cc
    | inr b ↦
        let n' : lookup k m ≡ none = rw b at n in
        let t = eqb_iff v.scope w.scope in
        let u = eqb_iff j k in
        (
          elim (Bool-cases (eqb v.scope w.scope)) [
            | inr c ↦ c
            | inl c ↦ let q : eqb j k ≡ true = u.1 (p ∙ sym (t.0 c) ∙ sym e) in cc
          ],
          other_paths k v m e n' a,
        )
  ]

  values-IsApart :
      (m : Assoc (Instance F))
      → Distinct m
      → All (λ e. e.0 ≡ e.1.scope) m
      → IsApart IsOtherPath (values m)
  values-IsApart [] d a = tt
  values-IsApart ((k, v) ∷ m) (n, d) (p, a) = (other_paths k v m p n a, values-IsApart m d a)

  -- Without a period, the instances behind an aggregate are in order of time, are counted ones, no
  -- two of one path, and each counted instance has one of its path among them that is as new.
  pub contributors_in_newest :
      (def : Definition F) (scope : Text) (instances : List (Instance F))
      → let contrib = contributors_in def scope instances none in
        (IsOrdered produced_before contrib × IsApart IsOtherPath contrib)
        × (All (λ c. (is_counted def scope c ≡ true) × In c instances) contrib
            × ((i : Instance F)
                → In i instances
                → is_counted def scope i ≡ true
                → (c : Instance F) × (In c contrib
                    × ((c.scope ≡ i.scope) × (i.produced_at ≤ c.produced_at)))))
  unfolding contributors_in latest_per_path
  contributors_in_newest def scope instances =
      let m = latest_from def scope [] instances in
      let IsEntry : Text × Instance F → Type 0 =
        λ e. (e.0 ≡ e.1.scope) × ((is_counted def scope e.1 ≡ true) × In e.1 instances) in
      let entries =
        All-latest_from def scope IsEntry instances []
          (entries_of def scope instances instances (λ i h. h)) tt in
      let keyed = All-weaken IsEntry (λ e. e.0 ≡ e.1.scope) (λ e p. p.0) m entries in
      let counted =
        All-values (λ c. (is_counted def scope c ≡ true) × In c instances) m
          (All-weaken IsEntry (λ e. (is_counted def scope e.1 ≡ true) × In e.1 instances)
            (λ e p. p.1) m entries) in
      let apart = values-IsApart m (latest_from-Distinct def scope instances [] tt) keyed in
      (
        (
          order_by-IsOrdered produced_before produced_before-IsWeakOrder (values m),
          order_by-IsApart produced_before IsOtherPath IsOtherPath-sym (values m) apart,
        ),
        (
          All-order_by produced_before (λ c. (is_counted def scope c ≡ true) × In c instances)
              (values m) counted,
          λ i h c.
              let n = latest_from_covers def scope instances [] i h c in
              let k = In-of_lookup i.scope n.0 m n.1.0 in
              (
                n.0,
                (
                  In-order_by produced_before n.0 (values m) (In-values i.scope n.0 m k),
                  (sym (All_of_in (λ e. e.0 ≡ e.1.scope) m (i.scope, n.0) keyed k), n.1.1),
                ),
              ),
        ),
      )
    where
      entries_of :
          (def : Definition F) (scope : Text) (all is : List (Instance F))
          → ((i : Instance F) → In i is → In i all)
          → All
              (λ i.
                is_counted def scope i ≡ true
                → (i.scope ≡ i.scope) × ((is_counted def scope i ≡ true) × In i all))
              is
      entries_of def scope all [] h = tt
      entries_of def scope all (i ∷ is) h =
          (λ b. (refl, (b, h i (inl refl))), entries_of def scope all is (λ j k. h j (inr k)))
