-- ===== src/Auth/Revocation.antt =====
-- Revocation: internal/identity/revocation.go, the cache over it in internal/server/api/auth.go, and
-- the check of a request's token. Parsing and checking a token (jwt) is a parameter.
pub mod Staleness
use robotdreams.Base.{
  ℕ, ◌+◌, ◌*◌, Text, Assoc, codes, eqb, lookup, insert, erase, length, trim_space, Bool, true,
  false, ◌||◌, ◌&&◌, not, Option, none, some, take, drop, if◌then◌else◌, ltb, leb, map,
}
use robotdreams.Auth.Scopes.{Claims, delegated}

pub record RevokedWorker : Type 0 where
  pub reason : Text
  pub revoked_at : ℕ

abbrev pub RevocationStore : Type 0
RevocationStore = Assoc RevokedWorker

abbrev has_entry : Option RevokedWorker → Bool
has_entry none = false
has_entry (some e) = true

-- The in-memory store; its `IsRevoked` does not fail.
unfoldable pub store_is_revoked : RevocationStore → Text → Bool
store_is_revoked s id = has_entry (lookup id s)

unfoldable pub revoke : RevocationStore → ℕ → Text → Text → RevocationStore
revoke s now id reason = insert id (record { reason = reason; revoked_at = now }) s

unfoldable pub unrevoke : RevocationStore → Text → RevocationStore
unrevoke s id = erase id s

abbrev pub revocation_cache_ttl : ℕ
revocation_cache_ttl = 60 * 1_000_000_000

pub record RevocationEntry : Type 0 where
  pub revoked : Bool
  pub checked_at : ℕ

abbrev pub Cache : Type 0
Cache = Assoc RevocationEntry

-- `now.Sub(entry.checkedAt) < revocationCacheTTL`, where the difference may be negative.
abbrev pub is_current : ℕ → RevocationEntry → Bool
is_current now e = ltb now (e.checked_at + revocation_cache_ttl)

unfoldable pub cached : ℕ → Option RevocationEntry → Option Bool
cached now none = none
cached now (some e) = if is_current now e then some e.revoked else none

-- The answer and the cache after it. `ask` is the store's answer now, `none` an error of the store.
unfoldable pub is_revoked : Cache → ℕ → Text → Option Bool → Option Bool × Cache
unfolding cached
is_revoked c now id ask = elim (cached now (lookup id c)) [
  | some b ↦ (some b, c)
  | none ↦ elim ask [
    | none ↦ (none, c)
    | some b ↦ (some b, insert id (record { revoked = b; checked_at = now }) c)
  ]
]

unfoldable pub invalidate : Cache → Text → Cache
invalidate c id = erase id c

-- ASCII lower case, for strings.EqualFold with an ASCII prefix.
unfoldable pub lower : ℕ → ℕ
lower c = if leb b'A' c && leb c b'Z' then c + 32 else c

-- The header's value to the token in it.
unfoldable pub bearer_token : Text → Option Text
unfolding lower
bearer_token h =
    if leb (length h) 7 || not (eqb (map lower (take 7 h)) (map lower (codes "Bearer ")))
    then none
    else some (trim_space (drop 7 h))

-- What `withAuth` answers: the claims go on to the handler, or a status is written.
pub data Admission : Type 0 where
  admitted : Claims → Admission
  unauthorized : Admission
  internal_error : Admission

abbrev pub settle : Option Bool → Claims → Admission
settle none c = internal_error
settle (some true) c = unauthorized
settle (some false) c = admitted c

abbrev pub is_admitted : Admission → Bool
is_admitted (admitted c) = true
is_admitted unauthorized = false
is_admitted internal_error = false

-- Both checks of `withAuth`, the second for a delegated token whose worker is not revoked. `ask`
-- is the store.
unfoldable pub check_claims : Cache → ℕ → (Text → Option Bool) → Claims → Admission × Cache
check_claims c now ask claims =
    let (own, c') = is_revoked c now claims.worker_id (ask claims.worker_id) in
    let (by, c'') = is_revoked c' now claims.delegated_by (ask claims.delegated_by) in
    if is_admitted (settle own claims) && delegated claims
    then (settle by claims, c'')
    else (settle own claims, c')

unfoldable pub with_auth :
    (Text → Option Claims) → Cache → ℕ → (Text → Option Bool) → Text → Admission × Cache
unfolding bearer_token check_claims
with_auth validate c now ask header = elim (bearer_token header) [
  | none ↦ (unauthorized, c)
  | some raw ↦ elim (validate raw) [
    | none ↦ (unauthorized, c)
    | some claims ↦ check_claims c now ask claims
  ]
]
