-- ===== src/Base/Order.antt =====
-- `strcmp` as an order of the strings.
use Prim.Native.Nat.{Ordering}
use mathlib.Core.Path.{◌≡◌, refl}
use mathlib.Core.Logic.{◌≢◌}
use mathlib.Core.List.{[], ◌∷◌}
use native.Mathlib.Omega.{arith}
use libzbxpgsql.Base.Strings.{Text, strcmp}

-- `strcmp(x, y) <= 0`
abbrev pub NotAfter : Text → Text → Type 0
NotAfter x y = strcmp x y ≢ Ordering.gt

pub strcmp_self : (x : Text) → strcmp x x ≡ Ordering.eq
unfolding strcmp
strcmp_self [] = refl
strcmp_self (c ∷ x) = ground (arith, strcmp_self x)

pub strcmp-eq : (x y : Text) → strcmp x y ≡ Ordering.eq → x ≡ y
unfolding strcmp
strcmp-eq [] [] h = refl
strcmp-eq [] (d ∷ y) h = cc
strcmp-eq (c ∷ x) [] h = cc
strcmp-eq (c ∷ x) (d ∷ y) h = ground (arith, strcmp-eq x y)

pub strcmp-lt_flip :
    (x y : Text) → strcmp x y ≡ Ordering.lt → NotAfter x y × (strcmp y x ≡ Ordering.gt)
unfolding strcmp
strcmp-lt_flip [] [] h = cc
strcmp-lt_flip [] (d ∷ y) h = ((λ e. cc), refl)
strcmp-lt_flip (c ∷ x) [] h = cc
strcmp-lt_flip (c ∷ x) (d ∷ y) h = ground (arith, strcmp-lt_flip x y)

pub strcmp-gt_flip : (x y : Text) → strcmp x y ≡ Ordering.gt → strcmp y x ≡ Ordering.lt
unfolding strcmp
strcmp-gt_flip [] [] h = cc
strcmp-gt_flip [] (d ∷ y) h = cc
strcmp-gt_flip (c ∷ x) [] h = refl
strcmp-gt_flip (c ∷ x) (d ∷ y) h = ground (arith, strcmp-gt_flip x y)

pub NotAfter-trans : (x y z : Text) → NotAfter x y → NotAfter y z → NotAfter x z
unfolding strcmp
NotAfter-trans [] y [] p q e = cc
NotAfter-trans [] y (c ∷ z) p q e = cc
NotAfter-trans (c ∷ x) [] z p q e = p refl
NotAfter-trans (c ∷ x) (d ∷ y) [] p q e = q refl
NotAfter-trans (a ∷ x) (b ∷ y) (c ∷ z) p q e = ground (arith, NotAfter-trans x y z)
