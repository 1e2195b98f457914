-- ===== src/Prelude/Merges.antt =====
-- Interleavings of two lists, and parts of a list.
use mathlib.Core.Path.{refl}
use mathlib.Core.List.{List, [], ◌∷◌, ◌++◌, map, Sublistᴰ}
use mathlib.Core.List.Sublistᴰ.{slnil, cons, cons-cons}

-- `zs` holds the elements of `xs` and those of `ys`, both in their order.
pub data Merges {ℓ} {A : Type ℓ} : List A → List A → List A → Type ℓ where
  done : Merges [] [] []
  left : {x : A} {xs ys zs : List A} → Merges xs ys zs → Merges (x ∷ xs) ys (x ∷ zs)
  right : {y : A} {xs ys zs : List A} → Merges xs ys zs → Merges xs (y ∷ ys) (y ∷ zs)

module _ {ℓ} {A : Type ℓ} where
  pub Merges-left :
      (x : A) {xs ys zs : List A} → Merges xs ys zs → Merges (xs ++ (x ∷ [])) ys (zs ++ (x ∷ []))
  Merges-left x done = left done
  Merges-left x (left m) = left (Merges-left x m)
  Merges-left x (right m) = right (Merges-left x m)

  pub Merges-right :
      (y : A) {xs ys zs : List A} → Merges xs ys zs → Merges xs (ys ++ (y ∷ [])) (zs ++ (y ∷ []))
  Merges-right y done = right done
  Merges-right y (left m) = left (Merges-right y m)
  Merges-right y (right m) = right (Merges-right y m)

  pub Sublist-snoc :
      (y : A) {xs ys : List A} → Sublistᴰ xs ys → Sublistᴰ (xs ++ (y ∷ [])) (ys ++ (y ∷ []))
  Sublist-snoc y slnil = cons-cons refl slnil
  Sublist-snoc y (cons s) = cons (Sublist-snoc y s)
  Sublist-snoc y (cons-cons e s) = cons-cons e (Sublist-snoc y s)

  pub Sublist-skip : (y : A) {xs ys : List A} → Sublistᴰ xs ys → Sublistᴰ xs (ys ++ (y ∷ []))
  Sublist-skip y slnil = cons slnil
  Sublist-skip y (cons s) = cons (Sublist-skip y s)
  Sublist-skip y (cons-cons e s) = cons-cons e (Sublist-skip y s)

pub map-Merges {ℓ κ} :
    {A : Type ℓ} {B : Type κ} (f : A → B) {xs ys zs : List A}
    → Merges xs ys zs
    → Merges (map f xs) (map f ys) (map f zs)
map-Merges f done = done
map-Merges f (left m) = left (map-Merges f m)
map-Merges f (right m) = right (map-Merges f m)
