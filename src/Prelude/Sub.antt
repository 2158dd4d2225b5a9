-- ===== src/Prelude/Sub.antt =====
-- One list is got from another by leaving elements out, the order kept.
use Prim.Native.Nat.{◌≤◌}
use mathlib.Core.List.{List, [], ◌∷◌, ◌++◌}
use native.Mathlib.Omega.{arith}
use cosmwasm_etl.Prelude.Lists.{length, map_list}

pub data Sub {ℓ} {A : Type ℓ} : List A → List A → Type ℓ where
  nil : Sub [] []
  keep : {x : A} {xs ys : List A} → Sub xs ys → Sub (x ∷ xs) (x ∷ ys)
  skip : {y : A} {xs ys : List A} → Sub xs ys → Sub xs (y ∷ ys)

module _ {ℓ} {A : Type ℓ} where
  pub Sub-refl : (xs : List A) → Sub xs xs
  Sub-refl [] = Sub.nil
  Sub-refl (x ∷ xs) = Sub.keep (Sub-refl xs)

  -- The list that varies stands last, for the recursion.
  below : {ys zs : List A} → Sub ys zs → {xs : List A} → Sub xs ys → Sub xs zs
  below Sub.nil h = h
  below (Sub.skip k) h = Sub.skip (below k h)
  below (Sub.keep k) (Sub.keep h) = Sub.keep (below k h)
  below (Sub.keep k) (Sub.skip h) = Sub.skip (below k h)

  pub Sub-trans : {xs ys zs : List A} → Sub xs ys → Sub ys zs → Sub xs zs
  Sub-trans h k = below k h

  pub Sub-nil : (xs : List A) → Sub [] xs
  Sub-nil [] = Sub.nil
  Sub-nil (x ∷ xs) = Sub.skip (Sub-nil xs)

  pub Sub-append_left : (p : List A) {xs ys : List A} → Sub xs ys → Sub (p ++ xs) (p ++ ys)
  Sub-append_left [] h = h
  Sub-append_left (x ∷ p) h = Sub.keep (Sub-append_left p h)

  pub Sub-append : {xs ys us vs : List A} → Sub xs ys → Sub us vs → Sub (xs ++ us) (ys ++ vs)
  Sub-append Sub.nil k = k
  Sub-append (Sub.keep h) k = Sub.keep (Sub-append h k)
  Sub-append (Sub.skip h) k = Sub.skip (Sub-append h k)

  pub Sub-append_right : (xs ys : List A) → Sub xs (xs ++ ys)
  Sub-append_right [] ys = Sub-nil ys
  Sub-append_right (x ∷ xs) ys = Sub.keep (Sub-append_right xs ys)

  pub length-Sub : {xs ys : List A} → Sub xs ys → length xs ≤ length ys
  length-Sub Sub.nil = omega arith
  length-Sub (Sub.keep h) = omega (arith, length-Sub h)
  length-Sub (Sub.skip h) = omega (arith, length-Sub h)

pub Sub-map {ℓ κ} :
    {A : Type ℓ} {B : Type κ} (f : A → B) {xs ys : List A}
    → Sub xs ys
    → Sub (map_list f xs) (map_list f ys)
Sub-map f Sub.nil = Sub.nil
Sub-map f (Sub.keep h) = Sub.keep (Sub-map f h)
Sub-map f (Sub.skip h) = Sub.skip (Sub-map f h)
