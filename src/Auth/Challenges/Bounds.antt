-- ===== src/Auth/Challenges/Bounds.antt =====
-- The store never holds more challenges than its limit.
use robotdreams.Base.{
  ℕ, zero, suc, ◌+◌, ◌≤◌, ◌<◌, ◌≡◌, refl, Text, Assoc, eqb, eqb_iff, lookup, insert, erase, length,
  length-erase-lt, some, Bool-cases, inl, inr, [], ◌∷◌, arith, ltb, ◌⊎◌,
}
use robotdreams.Auth.Challenges.{
  Challenge, challenge_ttl, max_pending_challenges, sweep_expired, nearest_expiry, is_sooner, evict,
  evict_nearest_expiry, issue, size,
}

length-erase-pred :
    (k : Text) (x : Challenge) (m : Assoc Challenge)
    → lookup k m ≡ some x
    → suc (length (erase k m)) ≤ length m
length-erase-pred k x m h = length-erase-lt k x m h

abbrev Found : Text → Assoc Challenge → Type 0
Found k m = (ch : Challenge) × (lookup k m ≡ some ch)

Found-cons : (k j : Text) (x : Challenge) (m : Assoc Challenge) → Found k m → Found k ((j, x) ∷ m)
unfolding lookup
Found-cons k j x m (ch, e) = elim (Bool-cases (eqb j k)) [
  | inl h ↦ (x, rw h)
  | inr h ↦ (ch, rw h e)
]

Found-here : (k j : Text) (x : Challenge) (m : Assoc Challenge) → k ≡ j → Found k ((j, x) ∷ m)
unfolding lookup
Found-here k j x m e = (x, ground (arith, eqb_iff j k))

-- The loop over the entries ends with the id that it began with or that of an entry.
nearest_expiry_cases :
    (id : Text) (oldest : ℕ) (m : Assoc Challenge)
    → (nearest_expiry id oldest m ≡ id) ⊎ Found (nearest_expiry id oldest m) m
unfolding nearest_expiry
nearest_expiry_cases id oldest [] = inl refl
nearest_expiry_cases id oldest ((j, x) ∷ m) = elim (Bool-cases (is_sooner oldest x)) [
  | inl h ↦ rw h (elim (nearest_expiry_cases j x.expires_at m) [
    | inl e ↦ inr (Found-here _ j x m e)
    | inr f ↦ inr (Found-cons _ j x m f)
  ])
  | inr h ↦ rw h (elim (nearest_expiry_cases id oldest m) [
    | inl e ↦ inl e
    | inr f ↦ inr (Found-cons _ j x m f)
  ])
]

-- From the zero time, the loop finds an entry in any store that is not empty.
nearest_expiry-Found : (m : Assoc Challenge) → 0 < length m → Found (nearest_expiry [] 0 m) m
unfolding nearest_expiry
nearest_expiry-Found [] h = absurd (omega arith)
nearest_expiry-Found ((j, x) ∷ m) h = elim (nearest_expiry_cases j x.expires_at m) [
  | inl e ↦ Found-here _ j x m e
  | inr f ↦ Found-cons _ j x m f
]

-- With a turn for each entry too many, the eviction ends below the limit.
length-evict-le :
    (fuel : ℕ) (m : Assoc Challenge)
    → length m ≤ fuel + max_pending_challenges
    → length (evict fuel m) ≤ max_pending_challenges
unfolding evict
length-evict-le zero m h = omega arith
length-evict-le (suc fuel) m h = elim (Bool-cases (ltb max_pending_challenges (length m))) [
  | inr e ↦ rw (e, evict) (ground arith)
  | inl e ↦
      let (ch, f) = nearest_expiry-Found m (ground arith) in
      rw (e, evict)
        (length-evict-le fuel (erase (nearest_expiry [] 0 m) m)
          (omega (arith, length-erase-pred (nearest_expiry [] 0 m) ch m f)))
]

-- However many challenges are asked for, at most ten thousand are pending.
pub size-issue-le :
    (now : ℕ) (nonce k : Text) (m : Assoc Challenge)
    → size (issue now nonce k m) ≤ max_pending_challenges
unfolding size issue evict_nearest_expiry
size-issue-le now nonce k m =
    let s : Assoc Challenge =
      sweep_expired now (insert k (record { nonce = nonce; expires_at = now + challenge_ttl }) m) in
    length-evict-le (length s) s (omega arith)
