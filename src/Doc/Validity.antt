-- ===== src/Doc/Validity.antt =====
-- What `Document::validate` of src/doc.rs establishes, and how far the key getters then get.
use rust_ma_core.Common.{
  ℕ, Str, Bytes, true, not, str_eq_sound, is_empty, length, some, List, [], ◌∷◌, ok, err, ◌≡◌, refl,
  ap, ◌∙◌, ◌≢◌, arith, >>=-eq-ok, fail_if, ◌==◌, ==_iff, ne-nil_of_is_empty, fail_if-eq-ok,
  not-eq-ok, ok_or-eq-ok, All, if◌then◌else◌,
}
use rust_ma_core.Error.{invalid_key_length}
use rust_ma_core.Did
use rust_ma_core.Multiformat.{public_key_multibase_decode}
use rust_ma_core.Doc.Types.{
  VerificationMethod, Document, codec_ed25519_pub, codec_x25519_pub, default_did_context,
}
use rust_ma_core.Doc.Crates.{DocCrates}
use rust_ma_core.Doc.Method.{validate_method, validate_bare_did}
use rust_ma_core.Doc.Operations.{find_method, get_verification_method_by_id}
use rust_ma_core.Doc.Proving.{
  strs_eq, is_valid_rfc3339_utc, key_bytes, key_agreement_public_key_bytes, validate_controllers,
  validate_methods, validate_relationships, validate,
}

strs_eq_sound : (xs ys : List Str) → strs_eq xs ys ≡ true → xs ≡ ys
strs_eq_sound [] [] h = refl
strs_eq_sound [] (y ∷ ys) h = cc
strs_eq_sound (x ∷ xs) [] h = cc
strs_eq_sound (x ∷ xs) (y ∷ ys) h = ground (arith, str_eq_sound x y, strs_eq_sound xs ys)

module _ (crates : DocCrates) where
  open crates use {cids, multi, crypto}

  -- The id names a method of the document, and that method's key has the codec.
  pub record HasKey (doc : Document) (expected : ℕ) (id : Str) : Type 0 where
    pub vm : VerificationMethod
    pub bytes : Bytes
    pub is_resource : Did.validate_resource cids id ≡ ok tt
    pub found : find_method id doc.verification_method ≡ some vm
    pub decoded : public_key_multibase_decode multi vm.public_key_multibase ≡ ok (expected, bytes)

  pub record IsWellFormed (doc : Document) : Type 0 where
    pub context : doc.context ≡ default_did_context
    pub identity : validate_bare_did crates doc.id ≡ ok tt
    pub controlled : doc.controller ≢ []
    pub controllers : All (λ c. validate_bare_did crates c ≡ ok tt) doc.controller
    pub created : is_valid_rfc3339_utc crates doc.created_at ≡ true
    pub updated : is_valid_rfc3339_utc crates doc.updated_at ≡ true
    pub methods : All (λ m. validate_method crates m ≡ ok tt) doc.verification_method
    pub asserts : doc.assertion_method ≢ []
    pub agrees : doc.key_agreement ≢ []
    pub assertion_keys : All (HasKey doc codec_ed25519_pub) doc.assertion_method
    pub agreement_keys : All (HasKey doc codec_x25519_pub) doc.key_agreement

  controllers_sound :
      (l : List Str)
      → validate_controllers crates l ≡ ok tt
      → All (λ c. validate_bare_did crates c ≡ ok tt) l
  unfolding validate_controllers
  controllers_sound [] h = tt
  controllers_sound (c ∷ l) h =
      let (u, here, rest) = >>=-eq-ok (validate_bare_did crates c) _ h in
      (here, controllers_sound l rest)

  methods_sound :
      (l : List VerificationMethod)
      → validate_methods crates l ≡ ok tt
      → All (λ m. validate_method crates m ≡ ok tt) l
  unfolding validate_methods
  methods_sound [] h = tt
  methods_sound (m ∷ l) h =
      let (u, here, rest) = >>=-eq-ok (validate_method crates m) _ h in (here, methods_sound l rest)

  relationships_sound :
      (doc : Document) (l : List Str) (expected : ℕ)
      → validate_relationships crates doc l expected ≡ ok tt
      → All (HasKey doc expected) l
  unfolding validate_relationships get_verification_method_by_id
  relationships_sound doc [] expected h = tt
  relationships_sound doc (id ∷ l) expected h =
      let (u, resource, h1) = >>=-eq-ok (Did.validate_resource cids id) _ h in
      let (vm, found, h2) = >>=-eq-ok (get_verification_method_by_id doc id) _ h1 in
      let (decoded, read, h3) =
        >>=-eq-ok (public_key_multibase_decode multi vm.public_key_multibase) _ h2 in
      let (v, tested, h4) = >>=-eq-ok (fail_if (not (decoded.0 == expected)) _) _ h3 in
      let codec = (==_iff decoded.0 expected).0 (not-eq-ok (decoded.0 == expected) _ tested) in
      (
        record {
          vm = vm;
          bytes = decoded.1;
          is_resource = resource;
          found = ok_or-eq-ok _ _ found;
          decoded = read ∙ ap (λ n. ok (n, decoded.1)) codec;
        },
        relationships_sound doc l expected h4,
      )

  -- A document that passes validation has the DID context, bare DIDs for itself and its one or more
  -- controllers, valid timestamps and methods, and in both relationships at least one entry, each
  -- of which names a method whose key has the codec of that relationship.
  pub validate-IsWellFormed : (doc : Document) → validate crates doc ≡ ok tt → IsWellFormed doc
  unfolding validate
  validate-IsWellFormed doc h =
      let (u1, p1, h1) =
        >>=-eq-ok (fail_if (not (strs_eq doc.context default_did_context)) _) _ h in
      let (u2, p2, h2) = >>=-eq-ok (validate_bare_did crates doc.id) _ h1 in
      let (u3, p3, h3) = >>=-eq-ok (fail_if (is_empty doc.controller) _) _ h2 in
      let (u4, p4, h4) = >>=-eq-ok (validate_controllers crates doc.controller) _ h3 in
      let (u5, p5, h5) =
        >>=-eq-ok (fail_if (not (is_valid_rfc3339_utc crates doc.created_at)) _) _ h4 in
      let (u6, p6, h6) =
        >>=-eq-ok (fail_if (not (is_valid_rfc3339_utc crates doc.updated_at)) _) _ h5 in
      let (u7, p7, h7) = >>=-eq-ok (validate_methods crates doc.verification_method) _ h6 in
      let (u8, p8, h8) = >>=-eq-ok (fail_if (is_empty doc.assertion_method) _) _ h7 in
      let (u9, p9, h9) = >>=-eq-ok (fail_if (is_empty doc.key_agreement) _) _ h8 in
      let (u10, p10, h10) =
        >>=-eq-ok (validate_relationships crates doc doc.assertion_method codec_ed25519_pub) _ h9 in
      record {
        context = strs_eq_sound _ _ (not-eq-ok _ _ p1);
        identity = p2;
        controlled = ne-nil_of_is_empty _ (fail_if-eq-ok _ _ p3);
        controllers = controllers_sound _ p4;
        created = not-eq-ok _ _ p5;
        updated = not-eq-ok _ _ p6;
        methods = methods_sound _ p7;
        asserts = ne-nil_of_is_empty _ (fail_if-eq-ok _ _ p8);
        agrees = ne-nil_of_is_empty _ (fail_if-eq-ok _ _ p9);
        assertion_keys = relationships_sound doc _ _ p10;
        agreement_keys = relationships_sound doc _ _ h10;
      }

  key_bytes_cases :
      (vm : VerificationMethod) (bytes : Bytes) (expected : ℕ)
      → public_key_multibase_decode multi vm.public_key_multibase ≡ ok (expected, bytes)
      → key_bytes crates expected vm
        ≡ (if length bytes == 32 then ok bytes else err (invalid_key_length 32 (length bytes)))
  unfolding key_bytes
  key_bytes_cases vm bytes expected h = ground (arith, ==_iff expected expected)

  agreement_key :
      (doc : Document) (id : Str) (ids : List Str) (key : HasKey doc codec_x25519_pub id)
      → doc.key_agreement ≡ id ∷ ids
      → key_agreement_public_key_bytes crates doc ≡ (
          if length key.bytes == 32
          then ok key.bytes
          else err (invalid_key_length 32 (length key.bytes)))
  unfolding key_agreement_public_key_bytes get_verification_method_by_id
  agreement_key doc id ids key e =
      rw (e, key.found) (key_bytes_cases key.vm key.bytes codec_x25519_pub key.decoded)

  -- In a well-formed document the key for encryption is the first agreement method's, and the only
  -- way to miss it is a key whose length is not 32.
  pub key_agreement-IsWellFormed :
      (doc : Document)
      → IsWellFormed doc
      → (id : Str) × (ids : List Str) × (key : HasKey doc codec_x25519_pub id) × (doc.key_agreement
          ≡ id ∷ ids)
        × (key_agreement_public_key_bytes crates doc ≡ (
            if length key.bytes == 32
            then ok key.bytes
            else err (invalid_key_length 32 (length key.bytes))))
  key_agreement-IsWellFormed doc w = go doc.key_agreement refl w.agrees w.agreement_keys
    where
      go :
          (l : List Str)
          → doc.key_agreement ≡ l
          → l ≢ []
          → All (HasKey doc codec_x25519_pub) l
          → (id : Str) × (ids : List Str) × (key : HasKey doc codec_x25519_pub id)
            × (doc.key_agreement ≡ id ∷ ids)
            × (key_agreement_public_key_bytes crates doc ≡ (
                if length key.bytes == 32
                then ok key.bytes
                else err (invalid_key_length 32 (length key.bytes))))
      go [] e n k = absurd (n refl)
      go (id ∷ ids) e n k = (id, ids, k.0, e, agreement_key doc id ids k.0 e)
