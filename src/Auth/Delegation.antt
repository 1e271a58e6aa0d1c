-- ===== src/Auth/Delegation.antt =====
-- internal/server/delegate.go: short-lived tokens that a worker mints for its children, and the ids
-- of internal/server/server.go that they build on. Signing is a parameter, and so is the random
-- name that an empty child name is replaced by.
pub mod Bounds
use robotdreams.Base.{
  ℕ, ◌+◌, ◌-◌, Text, codes, is_empty, cut, contains_byte, length, Bool, true, false, not, ◌&&◌,
  ◌||◌, Option, none, some, List, [], ◌∷◌, ◌++◌, Result, ok, err, ◌>>=◌, if◌then◌else◌, leb, ltb,
  ◌==◌,
}
use robotdreams.Auth.Scopes.{
  Claims, Token, delegated, narrow_scopes, DelegationError, cannot_delegate, invalid_delegation,
  sign_failed,
}

-- The byte classes of `^[A-Za-z0-9][A-Za-z0-9._-]*$`.
unfoldable pub is_alnum : ℕ → Bool
is_alnum c = (leb b'A' c && leb c b'Z') || (leb b'a' c && leb c b'z') || (leb b'0' c && leb c b'9')

unfoldable pub is_id_byte : ℕ → Bool
unfolding is_alnum
is_id_byte c = is_alnum c || (c == b'.') || (c == b'_') || (c == b'-')

unfoldable pub all_id_bytes : Text → Bool
unfolding is_id_byte
all_id_bytes [] = true
all_id_bytes (c ∷ s) = is_id_byte c && all_id_bytes s

unfoldable pub matches_worker_id : Text → Bool
unfolding all_id_bytes
matches_worker_id [] = false
matches_worker_id (c ∷ s) = is_alnum c && all_id_bytes s

abbrev pub max_worker_id_len : ℕ
max_worker_id_len = 128

abbrev pub max_delegated_child_name : ℕ
max_delegated_child_name = 64

-- `true` where `ValidateWorkerID` returns nil; its error is always `ErrInvalidWorkerID`.
unfoldable pub validate_worker_id : Text → Bool
unfolding matches_worker_id
validate_worker_id id =
    if is_empty id
    then false
    else if ltb max_worker_id_len (length id)
    then false
    else if contains_byte b'~' id
    then false
    else matches_worker_id id

unfoldable pub delegated_worker_id : Text → Text → Text
delegated_worker_id parent child = parent ++ (codes "~" ++ child)

unfoldable pub delegation_parent : Text → Option (Text × Text)
delegation_parent id = elim (cut b'~' id) [
  | none ↦ none
  | some (parent, child) ↦ if is_empty parent || is_empty child then none else some (parent, child)
]

-- A missing ttl is 0, which stands for the negative ones too.
pub record DelegationRequest : Type 0 where
  pub child : Text
  pub scopes : List Text
  pub ttl : ℕ

pub record Delegation : Type 0 where
  pub worker_id : Text
  pub delegated_by : Text
  pub scopes : List Text
  pub token : Token

-- How long the new token lives: what was asked for or the maximum, cut to what is left of the
-- parent's token.
unfoldable pub grant_ttl : ℕ → ℕ → Option ℕ → ℕ → Result DelegationError ℕ
grant_ttl max_ttl now expires_at asked =
    let ttl : ℕ = if asked == 0 then max_ttl else asked in
    let cut_to : ℕ = elim expires_at [
      | none ↦ ttl
      | some e ↦ if ltb (e - now) ttl then e - now else ttl
    ] in
    if ltb max_ttl ttl
    then err invalid_delegation
    else if cut_to == 0
    then err invalid_delegation
    else ok cut_to

module _ (sign : Claims → Option Text) where
  -- `Issuer.mint`: the claims signed, with the times of the token. `now` is the issuer's own reading
  -- of the clock.
  unfoldable pub mint : ℕ → Text → Text → List Text → ℕ → Result DelegationError Token
  mint now worker_id delegated_by scopes ttl =
      let claims : Claims = record {
        worker_id = worker_id;
        scopes = scopes;
        delegated_by = delegated_by;
        expires_at = some (now + ttl);
      } in
      elim (sign claims) [
        | none ↦ err sign_failed
        | some raw ↦ ok (record { raw = raw; expires_at = now + ttl; issued_at = now })
      ]

  unfoldable pub mint_delegated : ℕ → Text → Text → List Text → ℕ → Result DelegationError Token
  unfolding mint
  mint_delegated now worker_id delegated_by scopes ttl =
      if is_empty delegated_by then err sign_failed else mint now worker_id delegated_by scopes ttl

  abbrev child_of : DelegationRequest → Text → Text
  child_of req random_child = if is_empty req.child then random_child else req.child

  abbrev bad_child : Text → Bool
  bad_child child = ltb max_delegated_child_name (length child) || not (matches_worker_id child)

  -- The clock is read twice: at `now` for what is left of the parent's token, and at `minted_at` by
  -- the issuer.
  unfoldable pub mint_delegated_token :
      ℕ → ℕ → ℕ → Text → Claims → DelegationRequest → Result DelegationError Delegation
  unfolding mint_delegated
  mint_delegated_token max_ttl now minted_at random_child parent req =
      let child = child_of req random_child in
      let child_id = delegated_worker_id parent.worker_id child in
      if delegated parent
      then err cannot_delegate
      else if is_empty parent.worker_id
      then err invalid_delegation
      else if bad_child child
      then err invalid_delegation
      else do
        scopes ← narrow_scopes parent.scopes req.scopes
        ttl ← grant_ttl max_ttl now parent.expires_at req.ttl
        token ← mint_delegated minted_at child_id parent.worker_id scopes ttl
        ok (record {
          worker_id = child_id;
          delegated_by = parent.worker_id;
          scopes = scopes;
          token = token;
        })
