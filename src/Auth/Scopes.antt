-- ===== src/Auth/Scopes.antt =====
-- The claims of a token (pkg/security/token.go), the storage patterns of internal/server/api/auth.go
-- and the narrowing of scopes in internal/server/delegate.go.
pub mod Narrowing
use robotdreams.Base.{
  ℕ, Text, codes, eqb, is_empty, has_prefix, cut_prefix, cut_last, cut, Bool, false, not, ◌&&◌,
  ◌||◌, Option, none, some, List, [], ◌∷◌, ◌++◌, any, keep, Result, ok, err, ◌>>=◌, if◌then◌else◌,
  leb,
}

-- A missing expiry is `none`; times are nanoseconds since the zero time.
pub record Claims : Type 0 where
  pub worker_id : Text
  pub scopes : List Text
  pub delegated_by : Text
  pub expires_at : Option ℕ

pub record Token : Type 0 where
  pub raw : Text
  pub expires_at : ℕ
  pub issued_at : ℕ

unfoldable pub delegated : Claims → Bool
delegated c = not (is_empty c.delegated_by)

abbrev pub holds : List Text → Text → Bool
holds scopes scope = any (λ s. eqb s scope) scopes

unfoldable pub has_scope : Claims → Text → Bool
has_scope c scope = holds c.scopes scope

unfoldable pub expired : Token → ℕ → Bool
expired t now = leb t.expires_at now

abbrev pub admin_scope : Text
admin_scope = codes "admin"

unfoldable pub is_admin : Claims → Bool
unfolding has_scope
is_admin c = has_scope c admin_scope

-- A pattern with a star at its end names every path that begins with the rest.
unfoldable pub matches_storage_pattern : Text → Text → Bool
matches_storage_pattern pattern path = elim (cut_last b'*' pattern) [
  | some base ↦ has_prefix path base
  | none ↦ eqb pattern path
]

abbrev pub scope_prefix : Text → Text
scope_prefix verb = codes "storage:" ++ (verb ++ b':' ∷ [])

unfoldable pub scope_allows : Text → Text → Text → Bool
unfolding matches_storage_pattern
scope_allows verb path s = elim (cut_prefix s (scope_prefix verb)) [
  | none ↦ false
  | some pattern ↦ matches_storage_pattern pattern path
]

unfoldable pub has_storage_scope : Claims → Text → Text → Bool
unfolding is_admin
has_storage_scope c verb path = is_admin c || any (scope_allows verb path) c.scopes

-- `ErrCannotDelegate`, `ErrInvalidDelegation`, and a failure to sign.
pub data DelegationError : Type 0 where
  cannot_delegate invalid_delegation sign_failed : DelegationError

abbrev whole : Option (Text × Text) → Option (Text × Text)
whole none = none
whole (some (verb, pattern)) =
    if is_empty verb || is_empty pattern then none else some (verb, pattern)

unfoldable pub cut_storage_scope : Text → Option (Text × Text)
cut_storage_scope scope = elim (cut_prefix scope (codes "storage:")) [
  | none ↦ none
  | some rest ↦ whole (cut b':' rest)
]

-- strings.TrimSuffix at a star
unfoldable pub trim_star : Text → Text
trim_star p = elim (cut_last b'*' p) [ none ↦ p | some base ↦ base ]

-- Whether the held verb and pattern cover the wanted ones.
unfoldable pub pattern_covers : Text × Text → Text × Text → Bool
unfolding trim_star
pattern_covers h w = elim (cut_last b'*' h.1) [
  | none ↦ false
  | some base ↦ eqb w.0 h.0 && has_prefix (trim_star w.1) base
]

unfoldable pub covers_one : Text → Text → Bool
unfolding cut_storage_scope pattern_covers
covers_one want h = eqb h want || elim (cut_storage_scope h) [
  | none ↦ false
  | some hs ↦ elim (cut_storage_scope want) [ none ↦ false | some ws ↦ pattern_covers hs ws ]
]

unfoldable pub scope_covered : List Text → Text → Bool
unfolding covers_one
scope_covered held want = any (covers_one want) held

unfoldable pub check_wanted : List Text → List Text → Result DelegationError (List Text)
unfolding scope_covered
check_wanted parent [] = ok []
check_wanted parent (w ∷ want) =
    if eqb w admin_scope
    then err invalid_delegation
    else if not (scope_covered parent w)
    then err invalid_delegation
    else do out ← check_wanted parent want; ok (w ∷ out)

unfoldable pub narrow_scopes : List Text → List Text → Result DelegationError (List Text)
unfolding check_wanted
narrow_scopes parent [] = ok (keep (λ s. not (eqb s admin_scope)) parent)
narrow_scopes parent (w ∷ want) = check_wanted parent (w ∷ want)
