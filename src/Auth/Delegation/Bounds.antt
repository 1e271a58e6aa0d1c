-- ===== src/Auth/Delegation/Bounds.antt =====
-- What a delegation is: its id, its lifetime, and who can ask for one.
use robotdreams.Base.{
  ℕ, ◌+◌, ◌≤◌, ◌<◌, ◌≡◌, ◌≢◌, Text, cut-append, true, false, Option, none, some, Result-cases, inl,
  inr, [], ok, arith,
}
use robotdreams.Auth.Scopes.{Claims, delegated, narrow_scopes}
use robotdreams.Auth.Delegation.{
  validate_worker_id, delegated_worker_id, delegation_parent, DelegationRequest, Delegation,
  grant_ttl, mint, mint_delegated, mint_delegated_token,
}

-- An id that names a parent and a child is taken apart into just these, where the parent's id holds
-- no separator, as no valid worker id does.
pub delegation_parent-delegated_worker_id :
    (parent child : Text)
    → validate_worker_id parent ≡ true
    → child ≢ []
    → delegation_parent (delegated_worker_id parent child) ≡ some (parent, child)
unfolding delegation_parent delegated_worker_id validate_worker_id
delegation_parent-delegated_worker_id parent child v nc =
    let e = cut-append b'~' parent child (ground arith) in ground (arith, e)

-- The lifetime that is granted is positive, at most the maximum, and counted from `now` it ends at
-- the latest with the parent's token.
pub grant_ttl_bounds :
    (max_ttl now asked ttl : ℕ) (expires_at : Option ℕ)
    → grant_ttl max_ttl now expires_at asked ≡ ok ttl
    → (0 < ttl) × (ttl ≤ max_ttl) × ((e : ℕ) → expires_at ≡ some e → now + ttl ≤ e)
unfolding grant_ttl
grant_ttl_bounds max_ttl now asked ttl none h = (ground arith, ground arith, λ e p. cc)
grant_ttl_bounds max_ttl now asked ttl (some x) h =
    (ground arith, ground arith, λ e p. ground arith)

module _ (sign : Claims → Option Text) (max_ttl now minted_at : ℕ) (random_child : Text)
    (parent : Claims) (req : DelegationRequest) where
  -- A delegation that is granted was asked for by a token that is not itself delegated, under a
  -- worker id, and carries scopes that the narrowing returned. Its token is issued when the issuer
  -- reads the clock, ends after that and within the maximum lifetime, and where the parent's token
  -- has an end, it has not come at the first reading, and the token outlives it by no more than the
  -- time between the two readings.
  pub mint_delegated_token_bounds :
      (d : Delegation)
      → mint_delegated_token sign max_ttl now minted_at random_child parent req ≡ ok d
      → (delegated parent ≡ false)
        × (d.delegated_by ≡ parent.worker_id)
        × (parent.worker_id ≢ [])
        × (narrow_scopes parent.scopes req.scopes ≡ ok d.scopes)
        × (d.token.issued_at ≡ minted_at)
        × (minted_at < d.token.expires_at)
        × (d.token.expires_at ≤ minted_at + max_ttl)
        × ((e : ℕ)
            → parent.expires_at ≡ some e
            → (now < e) × (now + d.token.expires_at ≤ e + minted_at))
  unfolding mint_delegated_token mint_delegated mint
  mint_delegated_token_bounds d h = elim (Result-cases (narrow_scopes parent.scopes req.scopes)) [
    | inr (x, e) ↦ absurd (ground arith)
    | inl (scopes, e) ↦ elim (Result-cases (grant_ttl max_ttl now parent.expires_at req.ttl)) [
      | inr (x, f) ↦ absurd (ground arith)
      | inl (ttl, f) ↦
          let b = grant_ttl_bounds max_ttl now req.ttl ttl parent.expires_at f in
          let t : d.token.expires_at ≡ minted_at + ttl = ground arith in
          (
            ground arith,
            ground arith,
            λ z. ground arith,
            ground arith,
            ground arith,
            omega (arith, b, t),
            omega (arith, b, t),
            λ x p. (omega (arith, b, b.2 x p), omega (arith, b.2 x p, t)),
          )
    ]
  ]
