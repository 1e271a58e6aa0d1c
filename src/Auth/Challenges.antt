-- ===== src/Auth/Challenges.antt =====
-- internal/server/api/auth.go: the challenges that a worker has to sign. The nonce and the clock's
-- reading are arguments. Two minutes and ten thousand are the constants of the source.
pub mod SingleUse
pub mod Bounds
use robotdreams.Base.{
  ℕ, zero, suc, ◌+◌, ◌*◌, Text, Assoc, eqb, lookup, insert, erase, length, Bool, true, false, ◌||◌,
  Option, none, some, [], ◌∷◌, if◌then◌else◌, ltb, ◌==◌,
}

abbrev pub challenge_ttl : ℕ
challenge_ttl = 120 * 1_000_000_000

abbrev pub max_pending_challenges : ℕ
max_pending_challenges = 10_000

pub record Challenge : Type 0 where
  pub nonce : Text
  pub expires_at : ℕ

-- now.After(ch.expiresAt)
abbrev pub is_over : ℕ → Challenge → Bool
is_over now ch = ltb ch.expires_at now

unfoldable pub sweep_expired : ℕ → Assoc Challenge → Assoc Challenge
sweep_expired now [] = []
sweep_expired now ((id, ch) ∷ m) =
    if is_over now ch then sweep_expired now m else (id, ch) ∷ sweep_expired now m

-- oldest.IsZero() || ch.expiresAt.Before(oldest)
unfoldable pub is_sooner : ℕ → Challenge → Bool
is_sooner oldest ch = (oldest == 0) || ltb ch.expires_at oldest

-- The inner loop of `evictNearestExpiryLocked`, with `oldestID` and `oldest`; the zero time is 0.
unfoldable pub nearest_expiry : Text → ℕ → Assoc Challenge → Text
unfolding is_sooner
nearest_expiry oldest_id oldest [] = oldest_id
nearest_expiry oldest_id oldest ((id, ch) ∷ m) =
    nearest_expiry (if is_sooner oldest ch then id else oldest_id)
      (if is_sooner oldest ch then ch.expires_at else oldest) m

-- The outer loop, a turn for each entry at most.
unfoldable pub evict : ℕ → Assoc Challenge → Assoc Challenge
unfolding nearest_expiry
evict zero m = m
evict (suc fuel) m = elim (ltb max_pending_challenges (length m)) [
  | true ↦ evict fuel (erase (nearest_expiry [] 0 m) m)
  | false ↦ m
]

unfoldable pub evict_nearest_expiry : Assoc Challenge → Assoc Challenge
unfolding evict
evict_nearest_expiry m = evict (length m) m

unfoldable pub issue : ℕ → Text → Text → Assoc Challenge → Assoc Challenge
unfolding sweep_expired
issue now nonce worker_id pending = evict_nearest_expiry (
    sweep_expired now
      (insert worker_id (record { nonce = nonce; expires_at = now + challenge_ttl }) pending))

unfoldable pub size : Assoc Challenge → ℕ
size pending = length pending

unfoldable pub answer : ℕ → Option Challenge → Option Text
answer now none = none
answer now (some ch) = if is_over now ch then none else some ch.nonce

-- The nonce, and the store after it.
unfoldable pub consume : ℕ → Text → Assoc Challenge → Option Text × Assoc Challenge
unfolding answer
consume now worker_id pending = elim (lookup worker_id pending) [
  | none ↦ (none, pending)
  | some ch ↦ (answer now (some ch), erase worker_id pending)
]

module _ (decode : Text → Option Text) (verify : Text → Text → Text → Bool) where
  -- `decode` stands for base64, `verify` for the check of an Ed25519 signature over a nonce.
  unfoldable pub check_signed : Text → Text → Text → Text → Bool
  check_signed issued nonce_b64 signature_b64 pub_key = elim (decode nonce_b64) [
    | none ↦ false
    | some nonce ↦
        if eqb nonce issued
        then elim (decode signature_b64) [ none ↦ false | some sig ↦ verify pub_key issued sig ]
        else false
  ]

  unfoldable pub verify_challenge :
      ℕ → Text → Text → Text → Text → Assoc Challenge → Bool × Assoc Challenge
  unfolding consume check_signed
  verify_challenge now worker_id nonce_b64 signature_b64 pub_key pending =
      let (issued, rest) = consume now worker_id pending in
      (elim issued [ none ↦ false | some n ↦ check_signed n nonce_b64 signature_b64 pub_key ], rest)
