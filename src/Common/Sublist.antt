-- ===== src/Common/Sublist.antt =====
-- `IsSublist xs ys`: `xs` is `ys` with some entries left out, the order kept.
use mathlib.Core.List.{List, [], ◌∷◌, ◌++◌}

pub data IsSublist {ℓ} {A : Type ℓ} : List A → List A → Type ℓ where
  done : IsSublist [] []
  keep : {x : A} {xs ys : List A} → IsSublist xs ys → IsSublist (x ∷ xs) (x ∷ ys)
  skip : {x : A} {xs ys : List A} → IsSublist xs ys → IsSublist xs (x ∷ ys)

module _ {ℓ} {A : Type ℓ} where
  pub IsSublist-refl : (xs : List A) → IsSublist xs xs
  IsSublist-refl [] = done
  IsSublist-refl (x ∷ xs) = keep (IsSublist-refl xs)

  pub nil-IsSublist : (xs : List A) → IsSublist [] xs
  nil-IsSublist [] = done
  nil-IsSublist (x ∷ xs) = skip (nil-IsSublist xs)

  trans_of : {ys zs : List A} → IsSublist ys zs → (xs : List A) → IsSublist xs ys → IsSublist xs zs
  trans_of done xs h = h
  trans_of (keep k) (x ∷ xs) (keep h) = keep (trans_of k xs h)
  trans_of (keep k) xs (skip h) = skip (trans_of k xs h)
  trans_of (skip k) xs h = skip (trans_of k xs h)

  pub IsSublist-trans : {xs ys zs : List A} → IsSublist xs ys → IsSublist ys zs → IsSublist xs zs
  IsSublist-trans {xs} h k = trans_of k xs h

  pub IsSublist-append :
      {xs ys us vs : List A} → IsSublist xs ys → IsSublist us vs → IsSublist (xs ++ us) (ys ++ vs)
  IsSublist-append done k = k
  IsSublist-append (keep h) k = keep (IsSublist-append h k)
  IsSublist-append (skip h) k = skip (IsSublist-append h k)
