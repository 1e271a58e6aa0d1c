-- ===== src/Auth/Tests.antt =====
-- The theorems of this part at a lead's token and at one of its delegations.
use robotdreams.Base.{
  ℕ, ◌+◌, ◌<◌, ◌≤◌, ◌≡◌, ◌≢◌, refl, Text, codes, eqb, lookup, arith, [], ◌∷◌, List, some, none,
  Option, true, false, Bool, ok, if◌then◌else◌, ltb, inr, contains_byte, cut_prefix, cut, cut_last,
  has_prefix, trim_space, trim_left, trim_right,
}
use robotdreams.Auth.Scopes.{
  Claims, admin_scope, delegated, has_storage_scope, scope_allows, narrow_scopes, check_wanted,
  scope_covered, covers_one, pattern_covers, cut_storage_scope, matches_storage_pattern, trim_star,
}
use robotdreams.Auth.Scopes.Narrowing.{narrow_scopes-allows}
use robotdreams.Auth.Delegation.{
  validate_worker_id, matches_worker_id, all_id_bytes, is_id_byte, is_alnum, delegated_worker_id,
  delegation_parent, DelegationRequest, Delegation, grant_ttl, mint, mint_delegated,
  mint_delegated_token,
}
use robotdreams.Auth.Delegation.Bounds.{
  delegation_parent-delegated_worker_id, mint_delegated_token_bounds,
}
use robotdreams.Auth.Challenges.{Challenge, consume, issue, challenge_ttl}
use robotdreams.Auth.Challenges.SingleUse.{consume-issue}
use robotdreams.Auth.Revocation.{
  bearer_token, lower, Cache, is_revoked, with_auth, is_admitted, revocation_cache_ttl,
}
use robotdreams.Auth.Revocation.Staleness.{IsFaithful, with_auth_refuses}

abbrev lead_scopes : List Text
lead_scopes = admin_scope ∷ codes "storage:read:*" ∷ codes "message:send" ∷ []

abbrev lead : Claims
lead = record {
  worker_id = codes "lead";
  scopes = lead_scopes;
  delegated_by = [];
  expires_at = some 500;
}

abbrev wanted : List Text
wanted = codes "storage:read:shared/*" ∷ []

abbrev child : Claims
child = record {
  worker_id = codes "lead~a";
  scopes = wanted;
  delegated_by = codes "lead";
  expires_at = some 300;
}

narrow_scopes-allows_example : has_storage_scope lead (codes "read") (codes "shared/x") ≡ true
unfolding narrow_scopes check_wanted scope_covered covers_one pattern_covers cut_storage_scope
    trim_star cut_prefix cut cut_last has_prefix eqb has_storage_scope scope_allows
    matches_storage_pattern contains_byte
narrow_scopes-allows_example =
    narrow_scopes-allows lead child wanted (codes "read") (codes "shared/x") refl refl refl

delegation_parent-delegated_worker_id_example :
    delegation_parent (delegated_worker_id (codes "lead") (codes "a"))
    ≡ some (codes "lead", codes "a")
unfolding validate_worker_id matches_worker_id all_id_bytes is_id_byte is_alnum contains_byte
delegation_parent-delegated_worker_id_example =
    delegation_parent-delegated_worker_id (codes "lead") (codes "a") refl (λ e. cc)

abbrev sign : Claims → Option Text
sign c = some c.worker_id

abbrev request : DelegationRequest
request = record { child = codes "a"; scopes = wanted; ttl = 200 }

abbrev granted : Delegation
granted = record {
  worker_id = codes "lead~a";
  delegated_by = codes "lead";
  scopes = wanted;
  token = record { raw = codes "lead~a"; expires_at = 300; issued_at = 100 };
}

mint_delegated_token_bounds_example :
    (delegated lead ≡ false)
    × (codes "lead" ≡ codes "lead")
    × (codes "lead" ≢ [])
    × (narrow_scopes lead_scopes wanted ≡ ok wanted)
    × (granted.token.issued_at ≡ 100)
    × (100 < 300)
    × (300 ≤ 100 + 250)
    × ((e : ℕ) → some 500 ≡ some e → (99 < e) × (99 + 300 ≤ e + 100))
unfolding mint_delegated_token mint_delegated mint grant_ttl delegated_worker_id delegated
    matches_worker_id all_id_bytes is_id_byte is_alnum narrow_scopes check_wanted scope_covered
    covers_one pattern_covers cut_storage_scope trim_star cut_prefix cut cut_last has_prefix eqb
mint_delegated_token_bounds_example =
    mint_delegated_token_bounds sign 250 99 100 [] lead request granted refl

abbrev pending : List (Text × Challenge)
pending = issue 10 (codes "n0") (codes "lead") []

consume-issue_example :
    (consume 20 (codes "lead") pending).0
    ≡ (if ltb (10 + challenge_ttl) 20 then none else some (codes "n0"))
consume-issue_example = consume-issue 10 20 (codes "n0") (codes "lead") [] (omega arith)

-- A store that calls the lead revoked, and nobody else.
abbrev lead_only : ℕ → Text → Option Bool
lead_only t id = some (eqb id (codes "lead"))

empty-IsFaithful : (now : ℕ) → IsFaithful lead_only now []
unfolding lookup
empty-IsFaithful now = record { true_then = λ k e h. cc; not_future = λ k e h. cc }

abbrev validate : Text → Option Claims
validate raw =
    if eqb raw (codes "abc") then some lead else if eqb raw (codes "def") then some child else none

with_auth_refuses_example :
    is_admitted
      (with_auth validate [] revocation_cache_ttl
        (lead_only revocation_cache_ttl)
        (codes "Bearer def")).0
    ≡ false
unfolding bearer_token lower trim_space trim_left trim_right eqb delegated
with_auth_refuses_example =
    with_auth_refuses lead_only validate [] 0 revocation_cache_ttl (codes "Bearer def")
      (codes "def") (codes "lead") child (empty-IsFaithful revocation_cache_ttl) (omega arith)
      (λ t h. refl) refl refl (inr (refl, refl))

abbrev cache : Cache
cache = (is_revoked [] 5 (codes "lead") (some true)).1
