-- ===== src/Auth/Scopes/Narrowing.antt =====
-- A delegated token never reaches further than its parent.
use mathlib.Core.List.{append_assoc}
use mathlib.Core.Path.{ap₂}
use robotdreams.Base.{
  Result-cases, has_prefix_refl, has_prefix_trans, cut_prefix-append, cut_prefix→append, cut→append,
  cut-append, ◌≡◌, refl, sym, ap, ◌∙◌, subst, Text, codes, eqb, eqb_iff, has_prefix, cut_prefix,
  cut_last, cut, contains_byte, true, false, not, some, Option-cases, Bool-cases, inl, inr, List,
  [], ◌∷◌, ◌++◌, any, keep, ok, arith,
}
use robotdreams.Auth.Scopes.{
  Claims, admin_scope, holds, matches_storage_pattern, scope_prefix, scope_allows,
  has_storage_scope, cut_storage_scope, trim_star, pattern_covers, covers_one, scope_covered,
  check_wanted, narrow_scopes,
}

-- A path that the wanted pattern names begins with the pattern less its star.
path_below :
    (w path : Text) → matches_storage_pattern w path ≡ true → has_prefix path (trim_star w) ≡ true
unfolding matches_storage_pattern trim_star
path_below w path h = elim (Option-cases (cut_last b'*' w)) [
  | inr (base, e) ↦ rw (e, trim_star) (ground arith)
  | inl e ↦
      let same : w ≡ path = (eqb_iff w path).0 (ground arith) in
      rw (e, trim_star) (rw (← same) (has_prefix_refl w))
]

-- What a storage scope is made of.
cut_storage_scope→append :
    (s v p : Text) → cut_storage_scope s ≡ some (v, p) → s ≡ scope_prefix v ++ p
unfolding cut_storage_scope
cut_storage_scope→append s v p h = elim (Option-cases (cut_prefix s (codes "storage:"))) [
  | inl n ↦ absurd (ground arith)
  | inr (rest, e) ↦ elim (Option-cases (cut b':' rest)) [
    | inl n ↦ absurd (ground arith)
    | inr ((v', p'), f) ↦
        let a : v' ≡ v = ground arith in
        let b : p' ≡ p = ground arith in
        let g = cut→append b':' rest v' p' f in
        cut_prefix→append s (codes "storage:") rest e
        ∙ ap (λ x. codes "storage:" ++ x)
            (g ∙ ap₂ (λ x y. x ++ b':' ∷ y) a b ∙ sym (append_assoc v (b':' ∷ []) p))
  ]
]

allowed_pattern :
    (verb path s : Text)
    → scope_allows verb path s ≡ true
    → (p : Text) × (s ≡ scope_prefix verb ++ p) × (matches_storage_pattern p path ≡ true)
unfolding scope_allows
allowed_pattern verb path s h = elim (Option-cases (cut_prefix s (scope_prefix verb))) [
  | inl n ↦ absurd (ground arith)
  | inr (p, e) ↦ (p, cut_prefix→append s (scope_prefix verb) p e, ground arith)
]

-- A storage scope whose verb holds no colon is taken apart at that verb.
cut_storage_scope_verb :
    (verb p v q : Text)
    → contains_byte b':' verb ≡ false
    → cut_storage_scope (scope_prefix verb ++ p) ≡ some (v, q)
    → (verb ≡ v) × (p ≡ q)
unfolding cut_storage_scope
cut_storage_scope_verb verb p v q nc h =
    let e : cut_prefix (scope_prefix verb ++ p) (codes "storage:") ≡ some (verb ++ b':' ∷ p) =
      ap (λ x. cut_prefix x (codes "storage:"))
        (ap (λ x. codes "storage:" ++ x) (append_assoc verb (b':' ∷ []) p))
      ∙ cut_prefix-append (codes "storage:") (verb ++ b':' ∷ p) in
    let f = cut-append b':' verb p nc in (ground (arith, e, f), ground (arith, e, f))

allows_pattern :
    (verb path p : Text)
    → matches_storage_pattern p path ≡ true
    → scope_allows verb path (scope_prefix verb ++ p) ≡ true
unfolding scope_allows
allows_pattern verb path p m = rw (cut_prefix-append (scope_prefix verb) p, scope_allows) m

pattern_covers_matches :
    (hv hp wv wp path : Text)
    → pattern_covers (hv, hp) (wv, wp) ≡ true
    → matches_storage_pattern wp path ≡ true
    → (wv ≡ hv) × (matches_storage_pattern hp path ≡ true)
unfolding pattern_covers
pattern_covers_matches hv hp wv wp path c m = elim (Option-cases (cut_last b'*' hp)) [
  | inl n ↦ absurd (ground arith)
  | inr (base, e) ↦
      let same : eqb wv hv ≡ true = ground arith in
      let below : has_prefix (trim_star wp) base ≡ true = ground arith in
      let q : has_prefix path base ≡ true =
        has_prefix_trans path (trim_star wp) base (path_below wp path m) below in
      ((eqb_iff wv hv).0 same, unfold matches_storage_pattern in ground (arith, q))
]

-- A held scope that covers a wanted one allows whatever the wanted one allows.
covers-allows :
    (verb path want h : Text)
    → contains_byte b':' verb ≡ false
    → covers_one want h ≡ true
    → scope_allows verb path want ≡ true
    → scope_allows verb path h ≡ true
unfolding covers_one
covers-allows verb path want h nc c a = elim (Bool-cases (eqb h want)) [
  | inl e ↦ rw ((eqb_iff h want).0 e) a
  | inr ne ↦ elim (Option-cases (cut_storage_scope h)) [
    | inl n ↦ absurd (ground arith)
    | inr ((hv, hp), e) ↦ elim (Option-cases (cut_storage_scope want)) [
      | inl n ↦ absurd (ground arith)
      | inr ((wv, wp), f) ↦
          let (p, w, m) = allowed_pattern verb path want a in
          let (sv, sp) =
            cut_storage_scope_verb verb p wv wp nc
              (subst (λ x. cut_storage_scope x ≡ some (wv, wp)) w f) in
          let (v, q) =
            pattern_covers_matches hv hp wv wp path (ground arith)
              (subst (λ x. matches_storage_pattern x path ≡ true) sp m) in
          let g : h ≡ scope_prefix verb ++ hp =
            cut_storage_scope→append h hv hp e ∙ ap (λ x. scope_prefix x ++ hp) (sym v ∙ sym sv) in
          rw g (allows_pattern verb path hp q)
    ]
  ]
]

covered-allows :
    (verb path want : Text) (held : List Text)
    → contains_byte b':' verb ≡ false
    → scope_covered held want ≡ true
    → scope_allows verb path want ≡ true
    → any (scope_allows verb path) held ≡ true
unfolding scope_covered
covered-allows verb path want [] nc c a = cc
covered-allows verb path want (h ∷ held) nc c a =
    ground (arith, covers-allows verb path want h nc, covered-allows verb path want held nc)

check_wanted-allows :
    (verb path : Text) (parent want out : List Text)
    → contains_byte b':' verb ≡ false
    → check_wanted parent want ≡ ok out
    → any (scope_allows verb path) out ≡ true
    → any (scope_allows verb path) parent ≡ true
unfolding check_wanted
check_wanted-allows verb path parent [] out nc h a =
    let e : out ≡ [] = ground arith in cc (subst (λ x. any (scope_allows verb path) x ≡ true) e a)
check_wanted-allows verb path parent (w ∷ want) out nc h a =
    elim (Result-cases (check_wanted parent want)) [
      | inl (rest, e) ↦
          let s : out ≡ w ∷ rest = ground arith in
          let a' : any (scope_allows verb path) (w ∷ rest) ≡ true =
            subst (λ x. any (scope_allows verb path) x ≡ true) s a in
          ground (
            arith,
            covered-allows verb path w parent nc,
            check_wanted-allows verb path parent want rest nc e,
          )
      | inr (x, e) ↦ absurd (ground arith)
    ]

kept-allows :
    (verb path : Text) (parent : List Text)
    → any (scope_allows verb path) (keep (λ s. not (eqb s admin_scope)) parent) ≡ true
    → any (scope_allows verb path) parent ≡ true
kept-allows verb path [] a = cc
kept-allows verb path (s ∷ parent) a = ground (arith, kept-allows verb path parent)

kept_admin :
    (parent : List Text) → holds (keep (λ s. not (eqb s admin_scope)) parent) admin_scope ≡ false
kept_admin [] = refl
kept_admin (s ∷ parent) = ground (arith, kept_admin parent)

check_wanted_admin :
    (parent want out : List Text)
    → check_wanted parent want ≡ ok out
    → holds out admin_scope ≡ false
unfolding check_wanted
check_wanted_admin parent [] out h = let e : out ≡ [] = ground arith in rw e
check_wanted_admin parent (w ∷ want) out h = elim (Result-cases (check_wanted parent want)) [
  | inl (rest, e) ↦
      let s : out ≡ w ∷ rest = ground arith in
      rw s (ground (arith, check_wanted_admin parent want rest e))
  | inr (x, e) ↦ absurd (ground arith)
]

-- Narrowing never hands on the admin scope, whatever is asked for.
pub narrow_scopes_admin :
    (parent want out : List Text)
    → narrow_scopes parent want ≡ ok out
    → holds out admin_scope ≡ false
unfolding narrow_scopes
narrow_scopes_admin parent [] out h =
    let e : out ≡ keep (λ s. not (eqb s admin_scope)) parent = ground arith in
    rw e (kept_admin parent)
narrow_scopes_admin parent (w ∷ want) out h = check_wanted_admin parent (w ∷ want) out h

-- What claims with narrowed scopes may do in storage, under a verb that holds no colon, claims with
-- the parent's scopes may do.
pub narrow_scopes-allows :
    (parent child : Claims) (want : List Text) (verb path : Text)
    → narrow_scopes parent.scopes want ≡ ok child.scopes
    → contains_byte b':' verb ≡ false
    → has_storage_scope child verb path ≡ true
    → has_storage_scope parent verb path ≡ true
unfolding narrow_scopes has_storage_scope
narrow_scopes-allows parent child [] verb path h nc a =
    let e : child.scopes ≡ keep (λ s. not (eqb s admin_scope)) parent.scopes = ground arith in
    let a' : any (scope_allows verb path) (keep (λ s. not (eqb s admin_scope)) parent.scopes)
        ≡ true =
      subst (λ x. any (scope_allows verb path) x ≡ true) e
        (ground (arith, narrow_scopes_admin parent.scopes [] child.scopes h)) in
    ground (arith, kept-allows verb path parent.scopes a')
narrow_scopes-allows parent child (w ∷ want) verb path h nc a = ground (
  arith,
  narrow_scopes_admin parent.scopes (w ∷ want) child.scopes h,
  check_wanted-allows verb path parent.scopes (w ∷ want) child.scopes nc h,
)
