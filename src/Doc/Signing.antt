-- ===== src/Doc/Signing.antt =====
-- Signing and verifying documents of src/doc.rs.
use rust_ma_core.Common.{
  Str, Bytes, true, false, not, any, str_eq, str_eq_sound, is_empty, length, some, ok, ok_or, ◌≡◌,
  refl, ap, ◌∙◌, subst, ◌++◌, arith, >>=-eq-ok, fail_if, ◌==◌, ==_iff, ensure-eq-ok, ok_or-eq-ok,
  not-eq-ok,
}
use rust_ma_core.Error.{MaError}
use rust_ma_core.Did.{Did}
use rust_ma_core.Multiformat.{signature_multibase_decode, signature_multibase_encode}
use rust_ma_core.Multiformat.RoundTrip.{multibase_decode-encode_length}
use rust_ma_core.Doc.Types.{
  VerificationMethod, Document, codec_ed25519_pub, codec_eddsa_sig, default_proof_type,
  default_proof_purpose,
}
use rust_ma_core.Doc.Crates.{DocCrates}
use rust_ma_core.Doc.Method.{new_proof, is_empty_proof, signing_key_from_bytes, sign_bytes}
use rust_ma_core.Doc.Operations.{find_method, get_verification_method_by_id}
use rust_ma_core.Doc.Proving.{
  payload_document, payload_bytes, payload_hash, key_bytes, verifying_key_for_method, sign, verify,
}

module _ (crates : DocCrates) where
  open crates use {multi}
  open crates.crypto use {
    VerifyingKey, Signature, verifying_key_from_bytes, signature_from_slice, ed25519_verify,
    ed25519_public, ed25519_sign, ed25519_correct, ed25519_public_length, ed25519_sign_nonempty,
  }

  -- The proof is no part of what is signed.
  payload_hash-proof :
      (doc : Document) (vm value : Str)
      → payload_hash crates (record doc { proof = new_proof value vm }) ≡ payload_hash crates doc
  unfolding payload_hash payload_bytes payload_document
  payload_hash-proof doc vm value = refl

  -- The key of a method that publishes a secret's public key.
  pub key_of_method :
      (doc : Document) (vm : VerificationMethod) (did : Did) (secret : Bytes) (key : VerifyingKey)
      → find_method vm.id doc.verification_method ≡ some vm
      → (signing_key_from_bytes crates did secret).public_key_multibase ≡ vm.public_key_multibase
      → verifying_key_from_bytes (ed25519_public secret) ≡ some key
      → verifying_key_for_method crates doc vm.id ≡ ok key
  unfolding verifying_key_for_method key_bytes get_verification_method_by_id signing_key_from_bytes
  key_of_method doc vm did secret key found same made =
      rw
        (
          found,
          ← same,
          (multibase_decode-encode_length multi codec_ed25519_pub 31 (ed25519_public secret)
              (omega arith) (ed25519_public_length secret)).0,
          ed25519_public_length secret,
          made,
        )
        refl

  text_nonempty :
      (b : Bytes) → is_empty (signature_multibase_encode multi codec_eddsa_sig b) ≡ false
  unfolding signature_multibase_encode
  text_nonempty b =
      let (s, e) = multi.base58_prefix (multi.varint_encode codec_eddsa_sig ++ b) in rw e refl

  abbrev with_proof : Document → Bytes → Str → Document
  with_proof doc sig_bytes vm = record doc {
    proof = new_proof (signature_multibase_encode multi codec_eddsa_sig sig_bytes) vm;
  }

  proved :
      (doc : Document) (vm : Str) (sig_bytes hash : Bytes) (key : VerifyingKey) (sig : Signature)
      → length sig_bytes ≡ 64
      → signature_from_slice sig_bytes ≡ some sig
      → any (str_eq vm) doc.assertion_method ≡ true
      → verifying_key_for_method crates doc vm ≡ ok key
      → payload_hash crates doc ≡ ok hash
      → ed25519_verify key hash sig ≡ true
      → verify crates (with_proof doc sig_bytes vm) ≡ ok tt
  unfolding verify new_proof is_empty_proof verifying_key_for_method get_verification_method_by_id
      payload_hash payload_bytes payload_document
  proved doc vm sig_bytes hash key sig len parsed listed keyed hashed verified =
      rw
        (
          text_nonempty sig_bytes,
          (multibase_decode-encode_length multi codec_eddsa_sig 63 sig_bytes (omega arith) len).1,
          parsed,
          listed,
          keyed,
          hashed,
          verified,
        )
        refl

  -- A document that was signed with the key of one of its assertion methods verifies.
  pub verify-sign :
      (doc doc' : Document) (vm : VerificationMethod) (did : Did) (secret : Bytes)
      → sign crates (signing_key_from_bytes crates did secret) vm doc ≡ ok doc'
      → find_method vm.id doc.verification_method ≡ some vm
      → any (str_eq vm.id) doc.assertion_method ≡ true
      → verify crates doc' ≡ ok tt
  unfolding sign sign_bytes signing_key_from_bytes
  verify-sign doc doc' vm did secret signed found listed =
      let same_key =
        str_eq (signing_key_from_bytes crates did secret).public_key_multibase
          vm.public_key_multibase in
      let (u, matching, rest) =
        >>=-eq-ok (fail_if (not same_key) MaError.invalid_public_key_multibase) _ signed in
      let (hash, hashed, made) = >>=-eq-ok (payload_hash crates doc) _ rest in
      let (key, sig, keyed, parsed, verified) = ed25519_correct secret hash in
      let same : (signing_key_from_bytes crates did secret).public_key_multibase
          ≡ vm.public_key_multibase =
        str_eq_sound _ _ (not-eq-ok same_key _ matching) in
      let result : with_proof doc (ed25519_sign secret hash) vm.id ≡ doc' = ground arith in
      subst (λ d. verify crates d ≡ ok tt) result
        (proved doc vm.id (ed25519_sign secret hash) hash key sig
          (ed25519_sign_nonempty secret hash) parsed listed
          (key_of_method doc vm did secret key found same keyed) hashed verified)

  -- What `verify` has established when it accepts.
  pub record IsProved (doc : Document) : Type 0 where
    pub vm : VerificationMethod
    pub vm_bytes : Bytes
    pub sig_bytes : Bytes
    pub hash : Bytes
    pub key : VerifyingKey
    pub signature : Signature
    pub listed : any (str_eq doc.proof.verification_method) doc.assertion_method ≡ true
    pub found : find_method doc.proof.verification_method doc.verification_method ≡ some vm
    pub published : key_bytes crates codec_ed25519_pub vm ≡ ok vm_bytes
    pub keyed : verifying_key_from_bytes vm_bytes ≡ some key
    pub decoded :
        signature_multibase_decode multi doc.proof.proof_value ≡ ok (codec_eddsa_sig, sig_bytes)
    pub parsed : signature_from_slice sig_bytes ≡ some signature
    pub hashed : payload_hash crates doc ≡ ok hash
    pub verified : ed25519_verify key hash signature ≡ true

  key_inversion :
      (doc : Document) (id : Str) (key : VerifyingKey)
      → verifying_key_for_method crates doc id ≡ ok key
      → (vm : VerificationMethod) × (bytes : Bytes) × (find_method id doc.verification_method
          ≡ some vm)
        × (key_bytes crates codec_ed25519_pub vm ≡ ok bytes)
        × (verifying_key_from_bytes bytes ≡ some key)
  unfolding verifying_key_for_method get_verification_method_by_id
  key_inversion doc id key h =
      let (vm, found, h1) = >>=-eq-ok (get_verification_method_by_id doc id) _ h in
      let (bytes, published, h2) = >>=-eq-ok (key_bytes crates codec_ed25519_pub vm) _ h1 in
      (vm, bytes, ok_or-eq-ok _ _ found, published, ok_or-eq-ok _ _ h2)

  -- A document is accepted only with a signature of its payload's hash by the key of one of its own
  -- verification methods, which is listed for assertions.
  pub verify-IsProved : (doc : Document) → verify crates doc ≡ ok tt → IsProved doc
  unfolding verify
  verify-IsProved doc h =
      let (u1, p1, h1) = >>=-eq-ok (fail_if (is_empty_proof doc.proof) _) _ h in
      let (u2, p2, h2) =
        >>=-eq-ok (fail_if (not (str_eq doc.proof.proof_type default_proof_type)) _) _ h1 in
      let (u3, p3, h3) =
        >>=-eq-ok (fail_if (not (str_eq doc.proof.proof_purpose default_proof_purpose)) _) _ h2 in
      let (decoded, p4, h4) =
        >>=-eq-ok (signature_multibase_decode multi doc.proof.proof_value) _ h3 in
      let (u5, p5, h5) = >>=-eq-ok (fail_if (not (decoded.0 == codec_eddsa_sig)) _) _ h4 in
      let (signature, p6, h6) = >>=-eq-ok (ok_or (signature_from_slice decoded.1) _) _ h5 in
      let (u7, p7, h7) =
        >>=-eq-ok
          (fail_if (not (any (str_eq doc.proof.verification_method) doc.assertion_method)) _) _
          h6 in
      let (key, p8, h8) =
        >>=-eq-ok (verifying_key_for_method crates doc doc.proof.verification_method) _ h7 in
      let (hash, p9, h9) = >>=-eq-ok (payload_hash crates doc) _ h8 in
      let (vm, bytes, found, published, keyed) =
        key_inversion doc doc.proof.verification_method key p8 in
      let codec =
        (==_iff decoded.0 codec_eddsa_sig).0 (not-eq-ok (decoded.0 == codec_eddsa_sig) _ p5) in
      record {
        vm = vm;
        vm_bytes = bytes;
        sig_bytes = decoded.1;
        hash = hash;
        key = key;
        signature = signature;
        listed = not-eq-ok _ _ p7;
        found = found;
        published = published;
        keyed = keyed;
        decoded = p4 ∙ ap (λ n. ok (n, decoded.1)) codec;
        parsed = ok_or-eq-ok _ _ p6;
        hashed = p9;
        verified = ensure-eq-ok _ _ h9;
      }
