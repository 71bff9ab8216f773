-- ===== src/Multiformat/RoundTrip.antt =====
-- Encoding and decoding of src/multiformat.rs.
use rust_ma_core.Common.{
  ℕ, suc, length, ◌<◌, Bytes, [], ◌∷◌, ◌++◌, ok, err, ◌≡◌, refl, arith, is_empty, if◌then◌else◌,
}
use rust_ma_core.Error.{invalid_public_key_multibase}
use rust_ma_core.External.Multi.{MultiLib, u64_mod}
use rust_ma_core.Multiformat.{
  multicodec_encode, multicodec_decode, public_key_multibase_encode, public_key_multibase_decode,
  signature_multibase_encode, signature_multibase_decode,
}

module _ (lib : MultiLib) (codec : ℕ) where
  -- Decoding gives back the codec and the payload, and refuses exactly the empty payload.
  pub multicodec_decode-encode :
      (payload : Bytes)
      → codec < u64_mod
      → multicodec_decode lib (multicodec_encode lib codec payload)
        ≡ (if is_empty payload then err invalid_public_key_multibase else ok (codec, payload))
  unfolding multicodec_decode multicodec_encode
  multicodec_decode-encode payload h = rw (lib.varint_round_trip codec payload h) refl

  -- The text of a public key and of a signature that are not empty, under a codec of 64 bits, gives
  -- back the codec and the bytes.
  pub multibase_decode-encode :
      (c : ℕ) (rest : Bytes)
      → codec < u64_mod
      → (public_key_multibase_decode lib (public_key_multibase_encode lib codec (c ∷ rest))
          ≡ ok (codec, c ∷ rest))
        × (signature_multibase_decode lib (signature_multibase_encode lib codec (c ∷ rest))
            ≡ ok (codec, c ∷ rest))
  unfolding public_key_multibase_decode public_key_multibase_encode signature_multibase_decode
      signature_multibase_encode
  multibase_decode-encode c rest h = ground (
    arith,
    lib.base58_round_trip (lib.varint_encode codec ++ c ∷ rest),
    lib.varint_round_trip codec (c ∷ rest) h,
  )

-- The same at bytes of a known positive length.
pub multibase_decode-encode_length :
    (lib : MultiLib) (codec n : ℕ) (b : Bytes)
    → codec < u64_mod
    → length b ≡ suc n
    → (public_key_multibase_decode lib (public_key_multibase_encode lib codec b) ≡ ok (codec, b))
      × (signature_multibase_decode lib (signature_multibase_encode lib codec b) ≡ ok (codec, b))
multibase_decode-encode_length lib codec n [] h k = absurd (omega arith)
multibase_decode-encode_length lib codec n (c ∷ b) h k = multibase_decode-encode lib codec c b h
