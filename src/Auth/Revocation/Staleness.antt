-- ===== src/Auth/Revocation/Staleness.antt =====
-- How old an answer of the cache can be, and whom a request's check refuses. `said t id` is what the
-- store answers at time `t`, `none` where it fails.
use robotdreams.Base.{
  ℕ, ◌+◌, ◌≤◌, ◌<◌, ◌≡◌, ◌≢◌, refl, Text, eqb, eqb_iff, eqb_refl, lookup, insert, lookup-insert,
  lookup-erase, Bool, true, false, ◌||◌, ◌&&◌, not, Option, none, some, Option-cases, Bool-cases,
  inl, inr, ◌⊎◌, arith,
}
use robotdreams.Auth.Scopes.{Claims, delegated}
use robotdreams.Auth.Revocation.{
  RevocationEntry, Cache, revocation_cache_ttl, is_current, cached, is_revoked, invalidate, settle,
  is_admitted, check_claims, with_auth, bearer_token, RevocationStore, store_is_revoked, revoke,
  unrevoke,
}

-- Each entry is what the store said when it was made, and none was made in the future.
pub record IsFaithful (said : ℕ → Text → Option Bool) (now : ℕ) (c : Cache) : Type 0 where
  pub true_then :
      (k : Text) (e : RevocationEntry) → lookup k c ≡ some e → said e.checked_at k ≡ some e.revoked
  pub not_future : (k : Text) (e : RevocationEntry) → lookup k c ≡ some e → e.checked_at ≤ now

module _ (said : ℕ → Text → Option Bool) where
  pub IsFaithful-later :
      (now later : ℕ) (c : Cache) → now ≤ later → IsFaithful said now c → IsFaithful said later c
  IsFaithful-later now later c h f = record {
    true_then = f.true_then;
    not_future = λ k e l. omega (arith, f.not_future k e l);
  }

  insert-IsFaithful :
      (now : ℕ) (id : Text) (b : Bool) (c : Cache)
      → said now id ≡ some b
      → IsFaithful said now c
      → IsFaithful said now (insert id (record { revoked = b; checked_at = now }) c)
  insert-IsFaithful now id b c s f = record {
    true_then = λ k e l. elim (Bool-cases (eqb id k)) [
      | inl h ↦
          let i : e ≡ record { revoked = b; checked_at = now } =
            ground (arith, lookup-insert id k (record { revoked = b; checked_at = now }) c) in
          rw (i, ← (eqb_iff id k).0 h) s
      | inr h ↦
          f.true_then k e
            (ground (arith, lookup-insert id k (record { revoked = b; checked_at = now }) c))
    ];
    not_future = λ k e l.
        ground (
          arith,
          lookup-insert id k (record { revoked = b; checked_at = now }) c,
          f.not_future k e,
        );
  }

  -- An answer for an id leaves the cache faithful.
  pub is_revoked-IsFaithful :
      (c : Cache) (now : ℕ) (id : Text)
      → IsFaithful said now c
      → IsFaithful said now (is_revoked c now id (said now id)).1
  unfolding is_revoked
  is_revoked-IsFaithful c now id f = elim (Option-cases (cached now (lookup id c))) [
    | inr (b, e) ↦ rw (e, is_revoked) f
    | inl e ↦ elim (Option-cases (said now id)) [
      | inl s ↦ rw (e, is_revoked, s) f
      | inr (b, s) ↦ rw (e, is_revoked, s) (insert-IsFaithful now id b c s f)
    ]
  ]

  -- An answer of a faithful cache is what the store said less than a minute ago.
  pub is_revoked_recent :
      (c : Cache) (now : ℕ) (id : Text) (b : Bool)
      → IsFaithful said now c
      → (is_revoked c now id (said now id)).0 ≡ some b
      → (t : ℕ) × (t ≤ now) × (now < t + revocation_cache_ttl) × (said t id ≡ some b)
  unfolding is_revoked
  is_revoked_recent c now id b f h = elim (Option-cases (lookup id c)) [
    | inl e ↦ (now, omega arith, omega arith, ground arith)
    | inr (x, e) ↦ elim (Bool-cases (is_current now x)) [
      | inl u ↦
          let s : x.revoked ≡ b = ground arith in
          (x.checked_at, f.not_future id x e, ground arith, rw (← s) (f.true_then id x e))
      | inr u ↦ (now, omega arith, omega arith, ground arith)
    ]
  ]

  -- For a worker that the store has called revoked for a minute, the answer is not "no".
  not_cleared :
      (c : Cache) (since now : ℕ) (id : Text)
      → IsFaithful said now c
      → since + revocation_cache_ttl ≤ now
      → ((t : ℕ) → since ≤ t → said t id ≡ some true)
      → (is_revoked c now id (said now id)).0 ≢ some false
  not_cleared c since now id f h all e =
      let (t, a, b, s) = is_revoked_recent c now id false f e in cc (all t (omega arith), s)

  settle_refuses :
      (o : Option Bool) (claims : Claims) → o ≢ some false → is_admitted (settle o claims) ≡ false
  settle_refuses none claims n = refl
  settle_refuses (some true) claims n = refl
  settle_refuses (some false) claims n = absurd (n refl)

  check_claims_refuses :
      (c : Cache) (since now : ℕ) (claims : Claims) (id : Text)
      → IsFaithful said now c
      → since + revocation_cache_ttl ≤ now
      → ((t : ℕ) → since ≤ t → said t id ≡ some true)
      → (claims.worker_id ≡ id) ⊎ ((delegated claims ≡ true) × (claims.delegated_by ≡ id))
      → is_admitted (check_claims c now (said now) claims).0 ≡ false
  unfolding check_claims
  check_claims_refuses c since now claims id f h all (inl e) =
      let own = is_revoked c now claims.worker_id (said now claims.worker_id) in
      let n : own.0 ≢ some false = rw e (not_cleared c since now id f h all) in
      ground (arith, settle_refuses own.0 claims n)
  check_claims_refuses c since now claims id f h all (inr (d, e)) =
      let own = is_revoked c now claims.worker_id (said now claims.worker_id) in
      let f' = is_revoked-IsFaithful c now claims.worker_id f in
      let by = is_revoked own.1 now claims.delegated_by (said now claims.delegated_by) in
      let n : by.0 ≢ some false = rw e (not_cleared own.1 since now id f' h all) in
      ground (arith, settle_refuses by.0 claims n)

  -- With a faithful cache, a request is refused whose token is valid and names, as its worker or as
  -- the worker that delegated it, one that the store has called revoked for at least a minute.
  pub with_auth_refuses :
      (validate : Text → Option Claims) (c : Cache) (since now : ℕ) (header raw id : Text)
      (claims : Claims)
      → IsFaithful said now c
      → since + revocation_cache_ttl ≤ now
      → ((t : ℕ) → since ≤ t → said t id ≡ some true)
      → bearer_token header ≡ some raw
      → validate raw ≡ some claims
      → (claims.worker_id ≡ id) ⊎ ((delegated claims ≡ true) × (claims.delegated_by ≡ id))
      → is_admitted (with_auth validate c now (said now) header).0 ≡ false
  unfolding with_auth
  with_auth_refuses validate c since now header raw id claims f h all e v names =
      rw (e, with_auth, v) (check_claims_refuses c since now claims id f h all names)

-- After an invalidation the next answer is the store's own.
pub is_revoked-invalidate :
    (c : Cache) (now : ℕ) (id : Text) (ask : Option Bool)
    → (is_revoked (invalidate c id) now id ask).0 ≡ ask
unfolding is_revoked invalidate
is_revoked-invalidate c now id ask = ground (arith, lookup-erase id id c, eqb_refl id)

-- The in-memory store: an id is revoked after Revoke, not after Unrevoke, and otherwise as before.
pub store_is_revoked-revoke :
    (s : RevocationStore) (now : ℕ) (id reason j : Text)
    → (store_is_revoked (revoke s now id reason) j ≡ (eqb id j || store_is_revoked s j))
      × (store_is_revoked (unrevoke s id) j ≡ (not (eqb id j) && store_is_revoked s j))
unfolding store_is_revoked revoke unrevoke
store_is_revoked-revoke s now id reason j = (
  ground (arith, lookup-insert id j (record { reason = reason; revoked_at = now }) s),
  ground (arith, lookup-erase id j s),
)
