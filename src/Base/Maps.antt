-- ===== src/Base/Maps.antt =====
-- Go maps with string keys, as association lists. The order of iteration, which Go leaves open, is
-- the order of the list. An insertion drops every earlier entry of its key.
use Prim.Native.Nat.{◌+◌, ◌≤◌, ◌<◌}
use mathlib.Core.Path.{◌≡◌}
use mathlib.Core.Logic.{inl, inr}
use mathlib.Core.Option.{Option, none, some}
use mathlib.Core.List.{List, [], ◌∷◌}
use native.Mathlib.Omega.{arith}
use robotdreams.Base.Tests.{if◌then◌else◌}
use robotdreams.Base.Lists.{length, In}
use robotdreams.Base.Texts.{Text, eqb, eqb_iff}

abbrev pub Assoc : Type 0 → Type 0
Assoc V = List (Text × V)

module _ {V : Type 0} where
  unfoldable pub lookup : Text → Assoc V → Option V
  lookup k [] = none
  lookup k ((j, v) ∷ m) = if eqb j k then some v else lookup k m

  unfoldable pub erase : Text → Assoc V → Assoc V
  erase k [] = []
  erase k ((j, v) ∷ m) = if eqb j k then erase k m else (j, v) ∷ erase k m

  unfoldable pub insert : Text → V → Assoc V → Assoc V
  unfolding erase
  insert k v m = (k, v) ∷ erase k m

  -- No key twice.
  abbrev pub Distinct : Assoc V → Type 0
  Distinct [] = Unit
  Distinct ((k, v) ∷ m) = (lookup k m ≡ none) × Distinct m

  pub lookup-erase :
      (k j : Text) (m : Assoc V) → lookup j (erase k m) ≡ (if eqb k j then none else lookup j m)
  unfolding lookup erase
  lookup-erase k j [] = ground arith
  lookup-erase k j ((i, v) ∷ m) =
      ground (arith, lookup-erase k j m, eqb_iff i k, eqb_iff i j, eqb_iff k j)

  pub lookup-insert :
      (k j : Text) (v : V) (m : Assoc V)
      → lookup j (insert k v m) ≡ (if eqb k j then some v else lookup j m)
  unfolding lookup insert
  lookup-insert k j v m = ground (arith, lookup-erase k j m)

  pub length-erase-le : (k : Text) (m : Assoc V) → length (erase k m) ≤ length m
  unfolding erase
  length-erase-le k [] = omega arith
  length-erase-le k ((i, v) ∷ m) = ground (arith, length-erase-le k m)

  pub length-erase-lt :
      (k : Text) (v : V) (m : Assoc V) → lookup k m ≡ some v → length (erase k m) < length m
  unfolding lookup erase
  length-erase-lt k v [] h = cc
  length-erase-lt k v ((i, w) ∷ m) h = ground (arith, length-erase-lt k v m, length-erase-le k m)

  pub length-insert-le : (k : Text) (v : V) (m : Assoc V) → length (insert k v m) ≤ length m + 1
  unfolding insert
  length-insert-le k v m = omega (arith, length-erase-le k m)

  pub erase-Distinct : (k : Text) (m : Assoc V) → Distinct m → Distinct (erase k m)
  unfolding erase
  erase-Distinct k [] d = tt
  erase-Distinct k ((i, v) ∷ m) (d, ds) = ground (arith, erase-Distinct k m ds, lookup-erase k i m)

  pub insert-Distinct : (k : Text) (v : V) (m : Assoc V) → Distinct m → Distinct (insert k v m)
  unfolding insert
  insert-Distinct k v m d = (ground (arith, lookup-erase k k m, eqb_iff k k), erase-Distinct k m d)

  -- An entry that a lookup finds is in the list; in a list with distinct keys the converse holds.
  pub In-of_lookup : (k : Text) (v : V) (m : Assoc V) → lookup k m ≡ some v → In (k, v) m
  unfolding lookup
  In-of_lookup k v [] h = cc
  In-of_lookup k v ((i, w) ∷ m) h = ground (arith, eqb_iff i k, In-of_lookup k v m)

  pub lookup_of_In :
      (k : Text) (v : V) (m : Assoc V) → Distinct m → In (k, v) m → lookup k m ≡ some v
  unfolding lookup
  lookup_of_In k v [] _ h = elim h [ ]
  lookup_of_In k v ((i, w) ∷ m) (d, ds) (inl e) = ground (arith, eqb_iff i k)
  lookup_of_In k v ((i, w) ∷ m) (d, ds) (inr h) =
      let ih = lookup_of_In k v m ds h in ground (arith, eqb_iff i k)
