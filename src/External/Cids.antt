-- ===== src/External/Cids.antt =====
-- The crates `cid`, `multibase` (base 36) and `libp2p_identity`, as src/did.rs uses them.
use rust_ma_core.Common.{
  ℕ, Str, Bytes, Bool, true, Option, some, List, [], ◌∷◌, ◌≡◌, All, retain, is_ascii_alphanumeric,
  arith,
}

pub record CidLib : Type 1 where
  pub Cid : Type 0
  pub Multihash : Type 0
  pub PublicKey : Type 0
  -- `Cid::try_from`, `version() == Version::V1`, `codec()`, `to_bytes()`, `hash()`.
  pub cid_try_from : Str → Option Cid
  pub is_v1 : Cid → Bool
  pub codec : Cid → ℕ
  pub to_bytes : Cid → Bytes
  pub hash : Cid → Multihash
  -- `multibase::encode(Base::Base36Lower, _)`.
  pub base36_encode : Bytes → Str
  -- `PeerId::from_multihash(_)` and the digest of its multihash.
  pub peer_id_digest : Multihash → Option Bytes
  -- `PublicKey::try_decode_protobuf`, `try_into_ed25519().is_ok()`.
  pub try_decode_protobuf : Bytes → Option PublicKey
  pub is_ed25519 : PublicKey → Bool
  -- The alphabet of base 36, and the prefix character `k`, are digits and lower-case letters.
  pub base36_alphabet : (b : Bytes) → All (λ c. is_ascii_alphanumeric c ≡ true) (base36_encode b)

pub retain-All : (p : ℕ → Bool) (s : List ℕ) → All (λ c. p c ≡ true) (retain p s)
retain-All p [] = tt
retain-All p (c ∷ s) = ground (arith, retain-All p s)

-- An instance: a CID is a text, and its base 36 form keeps the letters and digits of its bytes.
abbrev pub toy_cids : CidLib
toy_cids = record {
  Cid = Str;
  Multihash = Bytes;
  PublicKey = Bytes;
  cid_try_from = λ s. some s;
  is_v1 = λ c. true;
  codec = λ c. 0x72;
  to_bytes = λ c. c;
  hash = λ c. c;
  base36_encode = retain is_ascii_alphanumeric;
  peer_id_digest = λ h. some h;
  try_decode_protobuf = λ b. some b;
  is_ed25519 = λ k. true;
  base36_alphabet = retain-All is_ascii_alphanumeric;
}
