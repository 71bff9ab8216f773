-- ===== src/Doc/Methods.antt =====
-- The verification methods that a document of src/doc.rs collects.
use rust_ma_core.Common.{
  Str, false, any, str_eq, Option, none, some, List, [], ◌∷◌, ◌++◌, ok, ◌≡◌, refl, arith, >>=-eq-ok,
  if◌then◌else◌, All, All-append, Bool-cases, inl, inr,
}
use rust_ma_core.Doc.Types.{VerificationMethod, Document}
use rust_ma_core.Doc.Crates.{DocCrates}
use rust_ma_core.Doc.Method.{validate_method}
use rust_ma_core.Doc.Operations.{find_method, is_duplicate, add_verification_method}

-- No method is a duplicate of one before it: ids and keys are distinct.
abbrev pub IsDistinct : List VerificationMethod → Type 0
IsDistinct [] = Unit
IsDistinct (method ∷ rest) = All (λ later. is_duplicate later method ≡ false) rest × IsDistinct rest

-- `o`, or else `p`.
abbrev pub or_else {ℓ} : {A : Type ℓ} → Option A → Option A → Option A
or_else none p = p
or_else (some a) p = some a

find_method-append :
    (id : Str) (methods : List VerificationMethod) (method : VerificationMethod)
    → find_method id (methods ++ method ∷ [])
      ≡ or_else (find_method id methods) (if str_eq method.id id then some method else none)
unfolding find_method
find_method-append id [] method = refl
find_method-append id (m ∷ methods) method = ground (arith, find_method-append id methods method)

IsDistinct-append :
    (methods : List VerificationMethod) (method : VerificationMethod)
    → any (is_duplicate method) methods ≡ false
    → IsDistinct methods
    → IsDistinct (methods ++ method ∷ [])
IsDistinct-append [] method h d = (tt, tt)
IsDistinct-append (m ∷ methods) method h d = (
  All-append (λ later. is_duplicate later m ≡ false) methods (method ∷ []) d.0 (ground arith),
  IsDistinct-append methods method (ground arith) d.1,
)

module _ (crates : DocCrates) (method : VerificationMethod) (doc doc' : Document) where
  -- Adding a method that passes validation changes the list of methods only: a method whose id or
  -- key is there already is left out, any other is found under its id, and every method that was
  -- there is found as before. The ids and the keys stay distinct.
  pub add_verification_method-methods :
      add_verification_method crates method doc ≡ ok doc'
      → (doc' ≡ record doc { verification_method = doc'.verification_method })
        × ((id : Str)
            → find_method id doc'.verification_method ≡ (
                if any (is_duplicate method) doc.verification_method
                then find_method id doc.verification_method
                else or_else
                    (find_method id doc.verification_method)
                    (if str_eq method.id id then some method else none)))
        × (IsDistinct doc.verification_method → IsDistinct doc'.verification_method)
        × (validate_method crates method ≡ ok tt)
  unfolding add_verification_method
  add_verification_method-methods h =
      let (u, valid, made) = >>=-eq-ok (validate_method crates method) _ h in
      elim (Bool-cases (any (is_duplicate method) doc.verification_method)) [
        | inl known ↦ (ground arith, (λ id. ground arith), (λ d. ground arith), valid)
        | inr fresh ↦
            let list : doc'.verification_method ≡ doc.verification_method ++ method ∷ [] =
              ground arith in
            (
              ground arith,
              (λ id. rw (list, fresh) (find_method-append id doc.verification_method method)),
              (λ d. rw list (IsDistinct-append doc.verification_method method fresh d)),
              valid,
            )
      ]
