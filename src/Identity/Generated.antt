-- ===== src/Identity/Generated.antt =====
-- The documents of generated identities of src/identity.rs.
use rust_ma_core.Common.{
  ℕ, ◌<◌, ◌^◌, Str, Bytes, codes, false, str_eq, str_eq_sound, is_empty, length, split_of_Free,
  Option, none, some, [], ◌∷◌, ◌++◌, ok, ◌≡◌, refl, sym, ap, ◌∙◌, arith, Bool-cases, inl, inr,
}
use rust_ma_core.Did
use rust_ma_core.Did.{Did, did_prefix, validate_identifier, validate_fragment}
use rust_ma_core.Did.Parse.{parse_iff, validate_identifier-Free}
use rust_ma_core.Multiformat.{public_key_multibase_encode, public_key_multibase_decode}
use rust_ma_core.Multiformat.RoundTrip.{multibase_decode-encode_length}
use rust_ma_core.Doc.Types.{
  VerificationMethod, Document, Ipld, Proof, multikey, codec_ed25519_pub, codec_x25519_pub,
  default_did_context,
}
use rust_ma_core.Doc.Crates.{DocCrates}
use rust_ma_core.Doc.Method.{
  no_proof, new_method, validate_method, validate_bare_did, check_key_type, signing_key_from_bytes,
  encryption_key_from_bytes,
}
use rust_ma_core.Doc.Operations
use rust_ma_core.Doc.Operations.{is_duplicate, add_verification_method, find_method}
use rust_ma_core.Doc.Proving.{sign}
use rust_ma_core.Identity.{HexLib, build_identity_from_keys}

pub str_eq-append : (a x y : Str) → str_eq (a ++ x) (a ++ y) ≡ str_eq x y
str_eq-append [] x y = refl
str_eq-append (c ∷ a) x y = ground (arith, str_eq-append a x y)

module _ (crates : DocCrates) where
  open crates use {cids, multi}

  -- The method that `new_method` builds for an identity.
  abbrev pub method_of : Str → Str → ℕ → Bytes → VerificationMethod
  method_of ipns fragment codec key = record {
    id = did_prefix ++ (ipns ++ b'#' ∷ fragment);
    key_type = multikey;
    controller = did_prefix ++ ipns;
    public_key_multibase = public_key_multibase_encode multi codec key;
  }

  pub text_nonempty :
      (codec : ℕ) (key : Bytes) → is_empty (public_key_multibase_encode multi codec key) ≡ false
  unfolding public_key_multibase_encode
  text_nonempty codec key =
      let (s, e) = multi.base58_prefix (multi.varint_encode codec ++ key) in rw e refl

  pub parsed_bare :
      (ipns : Str)
      → validate_identifier cids ipns ≡ ok tt
      → Did.parse cids (did_prefix ++ ipns) ≡ ok (ipns, none)
  unfolding Did.id Did.base_id
  parsed_bare ipns valid =
      (parse_iff cids (did_prefix ++ ipns) (record { ipns = ipns; fragment = none })).1
        (refl, (valid, tt))

  pub parsed_url :
      (ipns fragment : Str)
      → validate_identifier cids ipns ≡ ok tt
      → validate_fragment fragment ≡ ok tt
      → Did.parse cids (did_prefix ++ (ipns ++ b'#' ∷ fragment)) ≡ ok (ipns, some fragment)
  unfolding Did.id Did.base_id
  parsed_url ipns fragment valid valid_f =
      (parse_iff cids (did_prefix ++ (ipns ++ b'#' ∷ fragment))
          (record { ipns = ipns; fragment = some fragment })).1
        (refl, (valid, valid_f))

  pub validate-method_of :
      (ipns fragment : Str) (codec : ℕ) (key : Bytes)
      → validate_identifier cids ipns ≡ ok tt
      → validate_fragment fragment ≡ ok tt
      → codec < 2 ^ 64
      → length key ≡ 32
      → validate_method crates (method_of ipns fragment codec key) ≡ ok tt
  unfolding validate_method Did.validate_resource check_key_type validate_bare_did Did.try_from
  validate-method_of ipns fragment codec key valid valid_f small len =
      rw
        (
          parsed_url ipns fragment valid valid_f,
          parsed_bare ipns valid,
          text_nonempty codec key,
          (multibase_decode-encode_length multi codec 31 key small len).0,
        )
        refl

  -- An identifier has no `#`, so that the id of the method is its DID with the fragment.
  new_method_lem :
      (ipns fragment : Str) (codec : ℕ) (key : Bytes)
      → validate_identifier cids ipns ≡ ok tt
      → validate_fragment fragment ≡ ok tt
      → codec < 2 ^ 64
      → length key ≡ 32
      → new_method crates
          (did_prefix ++ ipns)
          (did_prefix ++ ipns)
          multikey
          fragment
          (public_key_multibase_encode multi codec key)
        ≡ ok (method_of ipns fragment codec key)
  unfolding new_method
  new_method_lem ipns fragment codec key valid valid_f small len =
      rw
        (
          split_of_Free b'#' ipns ((validate_identifier-Free cids ipns valid).1),
          validate-method_of ipns fragment codec key valid valid_f small len,
        )
        refl

  -- The two methods have other ids, and keys under other codecs.
  methods_differ :
      (ipns : Str) (sign_key enc_key : Bytes)
      → length sign_key ≡ 32
      → length enc_key ≡ 32
      → is_duplicate
          (method_of ipns (codes "enc") codec_x25519_pub enc_key)
          (method_of ipns (codes "sign") codec_ed25519_pub sign_key)
        ≡ false
  methods_differ ipns sign_key enc_key len_sign len_enc =
      rw (str_eq-append ipns (codes "#sign") (codes "#enc"))
        (elim (Bool-cases (
          str_eq (public_key_multibase_encode multi codec_ed25519_pub sign_key)
            (public_key_multibase_encode multi codec_x25519_pub enc_key))) [
              | inr differ ↦ differ
              | inl same ↦
                  let equal : public_key_multibase_encode multi codec_ed25519_pub sign_key
                      ≡ public_key_multibase_encode multi codec_x25519_pub enc_key =
                    str_eq_sound _ _ same in
                  let sign_read =
                    (multibase_decode-encode_length multi codec_ed25519_pub 31 sign_key
                      (omega arith) len_sign).0 in
                  let enc_read =
                    (multibase_decode-encode_length multi codec_x25519_pub 31 enc_key (omega arith)
                      len_enc).0 in
                  absurd (
                    ground (
                      arith,
                      sym sign_read ∙ (ap (public_key_multibase_decode multi) equal ∙ enc_read),
                    ))
            ])

  -- The documents of an identity: the times, the extension and the proof are open.
  abbrev pub document_of : Str → Bytes → Bytes → Str → Str → Option Ipld → Proof → Document
  document_of ipns sign_key enc_key created updated ma proof = record {
    context = default_did_context;
    id = did_prefix ++ ipns;
    controller = (did_prefix ++ ipns) ∷ [];
    verification_method =
        method_of ipns (codes "sign") codec_ed25519_pub sign_key
        ∷ method_of ipns (codes "enc") codec_x25519_pub enc_key
        ∷ [];
    assertion_method = (did_prefix ++ (ipns ++ codes "#sign")) ∷ [];
    key_agreement = (did_prefix ++ (ipns ++ codes "#enc")) ∷ [];
    proof = proof;
    created_at = created;
    updated_at = updated;
    ma = ma;
  }

  -- The document in front of the signature.
  abbrev pub related : Str → Bytes → Bytes → Str → Document
  related ipns sign_key enc_key now = document_of ipns sign_key enc_key now now none no_proof

  pub sign_fragment_valid : validate_fragment (codes "sign") ≡ ok tt
  unfolding validate_fragment
  sign_fragment_valid = refl

  pub enc_fragment_valid : validate_fragment (codes "enc") ≡ ok tt
  unfolding validate_fragment
  enc_fragment_valid = refl

  -- With a valid identifier, only the signature can fail.
  pub built :
      (hex : HexLib) (ipns now : Str) (did : Did) (sign_secret : Bytes) (enc_did : Did)
      (enc_secret : Bytes) (signed : Document)
      → validate_identifier cids ipns ≡ ok tt
      → sign crates
          (signing_key_from_bytes crates did sign_secret)
          (method_of ipns
            (codes "sign")
            codec_ed25519_pub
            (crates.crypto.ed25519_public sign_secret))
          (related ipns
            (crates.crypto.ed25519_public sign_secret)
            (crates.crypto.x25519_public enc_secret)
            now)
        ≡ ok signed
      → build_identity_from_keys crates hex ipns
          (signing_key_from_bytes crates did sign_secret)
          (encryption_key_from_bytes crates enc_did enc_secret)
          now
        ≡ ok (record {
          subject_url = record { ipns = ipns; fragment = none };
          document = signed;
          signing_private_key_hex = hex.encode sign_secret;
          encryption_private_key_hex = hex.encode enc_secret;
        })
  unfolding build_identity_from_keys Did.new_identity Did.base_id signing_key_from_bytes
      encryption_key_from_bytes add_verification_method Operations.new
  built hex ipns now did sign_secret enc_did enc_secret signed valid made =
      let sign_len = crates.crypto.ed25519_public_length sign_secret in
      let enc_len = crates.crypto.x25519_public_length enc_secret in
      let sign_key = crates.crypto.ed25519_public sign_secret in
      let enc_key = crates.crypto.x25519_public enc_secret in
      rw
        (
          build_identity_from_keys,
          valid,
          new_method_lem ipns (codes "sign") codec_ed25519_pub sign_key valid sign_fragment_valid
              (omega arith) sign_len,
          new_method_lem ipns (codes "enc") codec_x25519_pub enc_key valid enc_fragment_valid
              (omega arith) enc_len,
          validate-method_of ipns (codes "sign") codec_ed25519_pub sign_key valid
              sign_fragment_valid (omega arith) sign_len,
          validate-method_of ipns (codes "enc") codec_x25519_pub enc_key valid enc_fragment_valid
              (omega arith) enc_len,
          methods_differ ipns sign_key enc_key sign_len enc_len,
          made,
        )
        refl
