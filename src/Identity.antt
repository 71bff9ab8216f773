-- ===== src/Identity.antt =====
-- src/identity.rs: identities from keys and from secrets, and the secret key file. Each random
-- secret and each generated fragment is an argument; the clock's text is `now`.
pub mod Generated
pub mod Complete
pub mod Derived
pub mod KeyFile
pub mod Tests
use rust_ma_core.Common.{
  ℕ, Str, Bytes, codes, Bool, true, false, is_empty, Option, none, some, [], ◌∷◌, ok, err, ok_or,
  map_err, ◌>>=◌, ◌≡◌,
}
use rust_ma_core.Error.{ServiceResult, validation, invalid_identity_secret}
use rust_ma_core.External.Cids.{CidLib}
use rust_ma_core.Did
use rust_ma_core.Did.{Did, libp2p_key_codec}
use rust_ma_core.Doc.Types.{Document, SigningKey, EncryptionKey}
use rust_ma_core.Doc.Crates.{DocCrates}
use rust_ma_core.Doc.Method.{new_method, signing_key_from_bytes, encryption_key_from_bytes}
use rust_ma_core.Doc.Operations
use rust_ma_core.Doc.Operations.{add_verification_method}
use rust_ma_core.Doc.Proving.{sign}

pub record GeneratedIdentity : Type 0 where
  pub subject_url : Did
  pub document : Document
  pub signing_private_key_hex : Str
  pub encryption_private_key_hex : Str

-- The crate `hex`.
pub record HexLib : Type 0 where
  pub encode : Bytes → Str
  pub decode : Str → Option Bytes
  pub hex_round_trip : (b : Bytes) → decode (encode b) ≡ some b

module _ (crates : DocCrates) (hex : HexLib) where
  open crates use {cids}

  unfoldable pub build_identity_from_keys :
      Str → SigningKey → EncryptionKey → Str → ServiceResult GeneratedIdentity
  build_identity_from_keys ipns signing_key encryption_key now = do
    subject_url ← map_err validation (Did.new_identity cids ipns)
    let document : Document = Operations.new subject_url subject_url now
    assertion_vm ← map_err validation (
        new_method crates (Did.base_id subject_url) (Did.base_id subject_url) signing_key.key_type
          (codes "sign") signing_key.public_key_multibase)
    key_agreement_vm ← map_err validation (
        new_method crates (Did.base_id subject_url) (Did.base_id subject_url)
          encryption_key.key_type (codes "enc") encryption_key.public_key_multibase)
    with_assertion ← map_err validation (add_verification_method crates assertion_vm document)
    with_both ← map_err validation (add_verification_method crates key_agreement_vm with_assertion)
    let related : Document = record with_both {
      assertion_method = assertion_vm.id ∷ [];
      key_agreement = key_agreement_vm.id ∷ [];
    }
    signed ← map_err validation (sign crates signing_key assertion_vm related)
    ok (record {
      subject_url = subject_url;
      document = signed;
      signing_private_key_hex = hex.encode signing_key.secret_key;
      encryption_private_key_hex = hex.encode encryption_key.private_key;
    })

  -- The two generated fragments and the two random secrets.
  unfoldable pub build_identity :
      Str → Str → Str → Bytes → Bytes → Str → ServiceResult GeneratedIdentity
  build_identity ipns sign_fragment enc_fragment sign_secret enc_secret now = do
    sign_url ← map_err validation (Did.new_url cids ipns none sign_fragment)
    enc_url ← map_err validation (Did.new_url cids ipns none enc_fragment)
    build_identity_from_keys ipns (signing_key_from_bytes crates sign_url sign_secret)
        (encryption_key_from_bytes crates enc_url enc_secret) now

  unfoldable pub generate_identity :
      Str → Str → Str → Bytes → Bytes → Str → ServiceResult GeneratedIdentity
  unfolding build_identity
  generate_identity ipns sign_fragment enc_fragment sign_secret enc_secret now =
      build_identity ipns sign_fragment enc_fragment sign_secret enc_secret now

-- `Keypair::ed25519_from_bytes` with the multihash of the key's `PeerId`, and `Cid::new_v1`. The
-- laws say what such a CID and its base 36 text are read back as.
module _ (cids : CidLib) where
  open cids use {
    Cid, Multihash, PublicKey, cid_try_from, is_v1, codec, to_bytes, hash, base36_encode,
    peer_id_digest, try_decode_protobuf, is_ed25519,
  }

  pub record PeerLib : Type 0 where
    pub keypair_multihash : Bytes → Option Multihash
    pub new_v1 : ℕ → Multihash → Cid
    pub new_v1_parts :
        (secret : Bytes) (h : Multihash)
        → keypair_multihash secret ≡ some h
        → (is_v1 (new_v1 libp2p_key_codec h) ≡ true)
          × (codec (new_v1 libp2p_key_codec h) ≡ libp2p_key_codec)
          × (hash (new_v1 libp2p_key_codec h) ≡ h)
    pub text_round_trip :
        (secret : Bytes) (h : Multihash)
        → keypair_multihash secret ≡ some h
        → cid_try_from (base36_encode (to_bytes (new_v1 libp2p_key_codec h)))
          ≡ some (new_v1 libp2p_key_codec h)
    pub text_nonempty :
        (secret : Bytes) (h : Multihash)
        → keypair_multihash secret ≡ some h
        → is_empty (base36_encode (to_bytes (new_v1 libp2p_key_codec h))) ≡ false
    pub peer_key :
        (secret : Bytes) (h : Multihash)
        → keypair_multihash secret ≡ some h
        → (digest : Bytes) × (key : PublicKey) × (peer_id_digest h ≡ some digest)
          × (try_decode_protobuf digest ≡ some key)
          × (is_ed25519 key ≡ true)

module _ (crates : DocCrates) (hex : HexLib) (peers : PeerLib crates.cids) where
  open crates use {cids}
  open cids use {base36_encode, to_bytes}
  open peers use {keypair_multihash, new_v1}

  unfoldable pub ipns_from_secret : Bytes → ServiceResult Str
  ipns_from_secret secret = do
    peer_id ← ok_or (keypair_multihash secret) (validation invalid_identity_secret)
    ok (base36_encode (to_bytes (new_v1 libp2p_key_codec peer_id)))

  unfoldable pub generate_identity_from_secret :
      Bytes → Str → Str → Bytes → Bytes → Str → ServiceResult GeneratedIdentity
  unfolding ipns_from_secret build_identity
  generate_identity_from_secret secret sign_fragment enc_fragment sign_secret enc_secret now = do
    ipns ← ipns_from_secret secret
    build_identity crates hex ipns sign_fragment enc_fragment sign_secret enc_secret now
