-- ===== src/Versions/Symmetry.antt =====
-- Where the order of versions of internal/selfupdate/version.go is one.
use robotdreams.Base.{
  ℕ, ℤ, pos, negsuc, ◌≡◌, refl, sym, ◌∙◌, ap, inl, inr, arith, Bool-cases, Text, eqb, eqb_iff,
  eqb_refl, is_empty, text_ltb, text_ltb_asym, text_ltb_total, split, atoi, itoa, ltb, ◌==◌, Bool,
  true, false, Option, none, some, List, [], ◌∷◌, All, suc,
}
use robotdreams.Versions.{
  Order, before, same, after, ParsedVersion, int_ltb, either, compare_identifiers, compare_parts,
  compare_prerelease, number_first, compare_versions,
}

abbrev pub flip : Order → Order
flip before = after
flip same = same
flip after = before

-- The text of a number without leading zeros and without a plus sign.
abbrev written : ℤ → Text
written (pos n) = itoa n
written (negsuc n) = b'-' ∷ itoa (suc n)

-- A number is written the one way, as semantic versions ask.
abbrev pub IsPlain : Text → Type 0
IsPlain a = (n : ℤ) → atoi a ≡ some n → a ≡ written n

int_ltb_total : (m n : ℤ) → int_ltb m n ≡ false → int_ltb n m ≡ false → m ≡ n
int_ltb_total (pos a) (pos b) h k = ap pos (ground arith)
int_ltb_total (pos a) (negsuc b) h k = cc
int_ltb_total (negsuc a) (pos b) h k = cc
int_ltb_total (negsuc a) (negsuc b) h k = ap negsuc (ground arith)

int_ltb_asym : (m n : ℤ) → int_ltb m n ≡ true → int_ltb n m ≡ false
int_ltb_asym (pos a) (pos b) h = ground arith
int_ltb_asym (pos a) (negsuc b) h = cc
int_ltb_asym (negsuc a) (pos b) h = refl
int_ltb_asym (negsuc a) (negsuc b) h = ground arith

eqb_sym : (a b : Text) → eqb a b ≡ eqb b a
eqb_sym a b = elim (Bool-cases (eqb a b)) [
  | inl p ↦ p ∙ sym ((eqb_iff b a).1 (sym ((eqb_iff a b).0 p)))
  | inr p ↦ elim (Bool-cases (eqb b a)) [
    | inl q ↦ let r : eqb a b ≡ true = (eqb_iff a b).1 (sym ((eqb_iff b a).0 q)) in cc
    | inr q ↦ p ∙ sym q
  ]
]

-- A test that tells any two different elements apart in one direction.
either-flip :
    (x y : Bool) → (x ≡ true → y ≡ false) → (x ≡ false → y ≡ true) → either y ≡ flip (either x)
either-flip true y h k = ap either (h refl)
either-flip false y h k = ap either (k refl)

compare_identifiers-flip :
    (a b : Text) (m n : Option ℤ)
    → atoi a ≡ m
    → atoi b ≡ n
    → IsPlain a
    → IsPlain b
    → eqb a b ≡ false
    → compare_identifiers b a n m ≡ flip (compare_identifiers a b m n)
compare_identifiers-flip a b (some m) (some n) e f p q d =
    either-flip (int_ltb m n) (int_ltb n m) (int_ltb_asym m n) (λ h.
      elim (Bool-cases (int_ltb n m)) [
        | inl k ↦ k
        | inr k ↦
            let r : a ≡ b = p m e ∙ (ap written (int_ltb_total m n h k) ∙ sym (q n f)) in
            let s : eqb a b ≡ true = (eqb_iff a b).1 r in cc
      ])
compare_identifiers-flip a b (some m) none e f p q d = refl
compare_identifiers-flip a b none (some n) e f p q d = refl
compare_identifiers-flip a b none none e f p q d =
    either-flip (text_ltb a b) (text_ltb b a) (text_ltb_asym a b) (λ h.
      elim (Bool-cases (text_ltb b a)) [
        | inl k ↦ k
        | inr k ↦ let s : eqb a b ≡ true = (eqb_iff a b).1 (text_ltb_total a b h k) in cc
      ])

compare_parts-flip :
    (xs ys : List Text)
    → All IsPlain xs
    → All IsPlain ys
    → compare_parts ys xs ≡ flip (compare_parts xs ys)
unfolding compare_parts
compare_parts-flip [] [] p q = refl
compare_parts-flip [] (b ∷ ys) p q = refl
compare_parts-flip (a ∷ xs) [] p q = refl
compare_parts-flip (a ∷ xs) (b ∷ ys) (p, ps) (q, qs) =
    let ih = compare_parts-flip xs ys ps qs in
    let s = eqb_sym b a in
    elim (Bool-cases (eqb a b)) [
      | inl d ↦ rw (s, d) ih
      | inr d ↦ rw (s, d) (compare_identifiers-flip a b (atoi a) (atoi b) refl refl p q d)
    ]

number_first-flip :
    (a b : ℕ) (r s : Order) → s ≡ flip r → number_first b a s ≡ flip (number_first a b r)
number_first-flip a b r s e = elim (Bool-cases (a == b)) [
  | inl d ↦ let d' : (b == a) ≡ true = ground arith in rw (d, d') e
  | inr d ↦
      let d' : (b == a) ≡ false = ground arith in
      rw (d, d') (either-flip (ltb a b) (ltb b a) (λ h. ground arith) (λ h. ground arith))
]

compare_prerelease-flip :
    (a b : Text)
    → All IsPlain (split b'.' a)
    → All IsPlain (split b'.' b)
    → compare_prerelease b a ≡ flip (compare_prerelease a b)
unfolding compare_prerelease
compare_prerelease-flip a b p q =
    let s = eqb_sym b a in
    let c = compare_parts-flip (split b'.' a) (split b'.' b) p q in
    elim (Bool-cases (eqb a b)) [
      | inl d ↦ rw (s, d) refl
      | inr d ↦ elim (Bool-cases (is_empty a)) [
        | inl e ↦ elim (Bool-cases (is_empty b)) [
          | inl g ↦ let r : eqb a b ≡ true = both a b e g in cc
          | inr g ↦ rw (s, d, e, g) refl
        ]
        | inr e ↦ elim (Bool-cases (is_empty b)) [
          | inl g ↦ rw (s, d, e, g) refl
          | inr g ↦ rw (s, d, e, g) c
        ]
      ]
    ]
  where
    both : (a b : Text) → is_empty a ≡ true → is_empty b ≡ true → eqb a b ≡ true
    both [] [] e g = eqb_refl []
    both [] (x ∷ b) e g = cc
    both (x ∷ a) b e g = cc

-- Of two versions whose pre-releases write numbers without leading zeros, the one is older just
-- where the other is newer.
pub compare_versions-flip :
    (a b : ParsedVersion)
    → All IsPlain (split b'.' a.pre)
    → All IsPlain (split b'.' b.pre)
    → compare_versions b a ≡ flip (compare_versions a b)
unfolding compare_versions
compare_versions-flip a b p q = number_first-flip a.major b.major _ _ (
    number_first-flip a.minor b.minor _ _
      (number_first-flip a.patch b.patch _ _ (compare_prerelease-flip a.pre b.pre p q)))

-- Two identifiers that differ but are the same number are each newer than the other.
pub compare_parts_twins :
    (a b : Text) (xs ys : List Text) (n : ℤ)
    → atoi a ≡ some n
    → atoi b ≡ some n
    → eqb a b ≡ false
    → (compare_parts (a ∷ xs) (b ∷ ys) ≡ after) × (compare_parts (b ∷ ys) (a ∷ xs) ≡ after)
unfolding compare_parts
compare_parts_twins a b xs ys n e f d =
    let s = eqb_sym b a in
    let i : int_ltb n n ≡ false = irrefl n in (rw (d, e, f, i) refl, rw (s, d, e, f, i) refl)
  where
    irrefl : (n : ℤ) → int_ltb n n ≡ false
    irrefl n = elim (Bool-cases (int_ltb n n)) [ inl h ↦ int_ltb_asym n n h | inr h ↦ h ]
