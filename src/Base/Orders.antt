-- ===== src/Base/Orders.antt =====
-- Orders that are put together from the orders of keys, and the order of Go strings.
use mathlib.Core.Path.{◌≡◌, refl}
use mathlib.Core.Bool.{Bool, true, false, not, ◌&&◌, ◌||◌}
use mathlib.Core.List.{[], ◌∷◌}
use native.Mathlib.Omega.{arith}
use robotdreams.Base.Tests.{ltb}
use robotdreams.Base.Texts.{Text, text_ltb}
use robotdreams.Base.Sorting.{IsWeakOrder}

module _ {A : Type 0} where
  -- One order first, and where it does not tell two elements apart, the next.
  abbrev pub and_then : (A → A → Bool) → (A → A → Bool) → A → A → Bool
  and_then r s x y = r x y || (not (r y x) && s x y)

  pub and_then-IsWeakOrder :
      (r s : A → A → Bool) → IsWeakOrder r → IsWeakOrder s → IsWeakOrder (and_then r s)
  and_then-IsWeakOrder r s v w = record {
    asym = λ x y h. let a = v.asym x y in let b = v.asym y x in let c = w.asym x y in ground arith;
    cotrans = λ x y z h k.
        let a = v.cotrans x y z in
        let b = v.cotrans z y x in
        let c = w.cotrans x y z in
        let d = v.cotrans y x z in
        let e = v.cotrans y z x in
        let i = v.cotrans x z y in let j = v.cotrans z x y in ground arith;
  }

  -- The order of a key.
  pub on-IsWeakOrder :
      {B : Type 0}
      → (key : A → B) → (r : B → B → Bool) → IsWeakOrder r
      → IsWeakOrder (λ x y. r (key x) (key y))
  on-IsWeakOrder key r w = record {
    asym = λ x y. w.asym (key x) (key y);
    cotrans = λ x y z. w.cotrans (key x) (key y) (key z);
  }

pub ltb-IsWeakOrder : IsWeakOrder ltb
ltb-IsWeakOrder = record { asym = λ x y h. ground arith; cotrans = λ x y z h k. ground arith }

pub text_ltb_asym : (x y : Text) → text_ltb x y ≡ true → text_ltb y x ≡ false
unfolding text_ltb
text_ltb_asym [] [] h = refl
text_ltb_asym [] (b ∷ y) h = refl
text_ltb_asym (a ∷ x) [] h = cc
text_ltb_asym (a ∷ x) (b ∷ y) h = let ih = text_ltb_asym x y in ground arith

text_ltb_cotrans :
    (x y z : Text) → text_ltb x y ≡ false → text_ltb y z ≡ false → text_ltb x z ≡ false
unfolding text_ltb
text_ltb_cotrans [] [] z h k = k
text_ltb_cotrans [] (b ∷ y) z h k = cc
text_ltb_cotrans (a ∷ x) [] [] h k = refl
text_ltb_cotrans (a ∷ x) [] (c ∷ z) h k = cc
text_ltb_cotrans (a ∷ x) (b ∷ y) [] h k = refl
text_ltb_cotrans (a ∷ x) (b ∷ y) (c ∷ z) h k = let ih = text_ltb_cotrans x y z in ground arith

pub text_ltb-IsWeakOrder : IsWeakOrder text_ltb
text_ltb-IsWeakOrder = record { asym = text_ltb_asym; cotrans = text_ltb_cotrans }

-- Of two different texts one is before the other.
pub text_ltb_total : (x y : Text) → text_ltb x y ≡ false → text_ltb y x ≡ false → x ≡ y
unfolding text_ltb
text_ltb_total [] [] h k = refl
text_ltb_total [] (b ∷ y) h k = cc
text_ltb_total (a ∷ x) [] h k = cc
text_ltb_total (a ∷ x) (b ∷ y) h k =
    let e : a ≡ b = ground arith in let ih = text_ltb_total x y (ground arith) (ground arith) in cc
