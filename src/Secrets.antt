-- ===== src/Secrets.antt =====
-- src/config/secrets.rs: the bundle of secret keys, its encrypted form, and what is derived from it.
-- Each random value is an argument. A map of extra keys is the list of its entries.
pub mod Documents
pub mod Identities
pub mod Passphrase
pub mod RoundTrip
pub mod Sized
pub mod Tests
use rust_ma_core.Common.{
  ℕ, Str, Bytes, codes, Bool, true, false, ◌==◌, ltb, any, str_eq, is_empty, length, take, drop,
  map, Option, none, some, List, [], ◌∷◌, ◌++◌, ok, err, Result, map_err, fail_if, ◌>>=◌, ◌>>◌, ◌≡◌,
  if◌then◌else◌,
}
use rust_ma_core.Common.Maps.{get, insert, remove}
use rust_ma_core.Error.{Error, ServiceResult, secrets}

pub record SecretBundle : Type 0 where
  pub iroh_secret_key : Bytes
  pub ipns_secret_key : Bytes
  pub did_signing_key : Bytes
  pub did_encryption_key : Bytes
  pub created_at : Str
  pub extra_keys : List (Str × Bytes)

pub record BundleJson : Type 0 where
  pub iroh : Str
  pub ipns : Str
  pub did_signing : Str
  pub did_encryption : Str
  pub created_at : Str
  pub extra : List (Str × Str)

abbrev pub reserved : List Str
reserved = codes "iroh" ∷ codes "ipns" ∷ codes "did_signing" ∷ codes "did_encryption" ∷ []

-- The four random keys and the time.
unfoldable pub generate : Bytes → Bytes → Bytes → Bytes → Str → SecretBundle
generate iroh ipns did_signing did_encryption now = record {
  iroh_secret_key = iroh;
  ipns_secret_key = ipns;
  did_signing_key = did_signing;
  did_encryption_key = did_encryption;
  created_at = now;
  extra_keys = [];
}

unfoldable pub validate_key_name : Str → ServiceResult (Unit {0})
validate_key_name name = do
  fail_if (is_empty name) (secrets (codes "key name must not be empty"))
  fail_if (any (str_eq name) reserved)
      (secrets (codes "key name '" ++ (name ++ codes "' is reserved for a standard key")))

unfoldable pub add_key : Str → Bytes → SecretBundle → ServiceResult SecretBundle
unfolding validate_key_name
add_key name key bundle = do
  validate_key_name name
  ok (record bundle { extra_keys = insert str_eq name key bundle.extra_keys })

-- `key` is the random key, which is also returned.
unfoldable pub generate_key : Str → Bytes → SecretBundle → ServiceResult (Bytes × SecretBundle)
unfolding validate_key_name
generate_key name key bundle = do
  validate_key_name name
  ok (key, record bundle { extra_keys = insert str_eq name key bundle.extra_keys })

unfoldable pub get_key : Str → SecretBundle → Option Bytes
get_key name bundle = get str_eq name bundle.extra_keys

unfoldable pub remove_key : Str → SecretBundle → Option Bytes × SecretBundle
unfolding get_key
remove_key name bundle =
    (get_key name bundle, record bundle { extra_keys = remove str_eq name bundle.extra_keys })

unfoldable pub extra_key_names : SecretBundle → List Str
extra_key_names bundle = map (λ entry. entry.0) bundle.extra_keys

-- The crates `base64`, `serde_json` on the wire format, `argon2` and `chacha20poly1305`.
pub record SecretsLib : Type 1 where
  pub b64_encode : Bytes → Str
  pub b64_decode : Str → Result Str Bytes
  pub to_vec : BundleJson → Result Str Bytes
  pub from_slice : Bytes → Result Str BundleJson
  pub hash_password : Str → Bytes → Result Str Bytes
  pub Cipher : Type 0
  pub new_from_slice : Bytes → Result Str Cipher
  pub cipher_encrypt : Cipher → Bytes → Bytes → Result Str Bytes
  pub cipher_decrypt : Cipher → Bytes → Bytes → Result Str Bytes
  pub b64_round_trip : (b : Bytes) → b64_decode (b64_encode b) ≡ ok b
  pub json_round_trip : (w : BundleJson) {b : Bytes} → to_vec w ≡ ok b → from_slice b ≡ ok w
  pub cipher_round_trip :
      (c : Cipher) (nonce plain : Bytes) {sealed : Bytes}
      → cipher_encrypt c nonce plain ≡ ok sealed
      → cipher_decrypt c nonce sealed ≡ ok plain

module _ (lib : SecretsLib) where
  open lib use {
    b64_encode, b64_decode, to_vec, from_slice, hash_password, Cipher, new_from_slice,
    cipher_encrypt, cipher_decrypt,
  }

  abbrev pub encode_extra : List (Str × Bytes) → List (Str × Str)
  encode_extra [] = []
  encode_extra ((name, key) ∷ rest) = (name, b64_encode key) ∷ encode_extra rest

  unfoldable pub to_json_bytes : SecretBundle → ServiceResult Bytes
  to_json_bytes bundle = map_err secrets (
      to_vec (record {
        iroh = b64_encode bundle.iroh_secret_key;
        ipns = b64_encode bundle.ipns_secret_key;
        did_signing = b64_encode bundle.did_signing_key;
        did_encryption = b64_encode bundle.did_encryption_key;
        created_at = bundle.created_at;
        extra = encode_extra bundle.extra_keys;
      }))

  -- `try_into()` for 32 bytes.
  abbrev pub sized : Str → Bytes → ServiceResult Bytes
  sized field bytes =
      if length bytes == 32
      then ok bytes
      else err (secrets (codes "'" ++ (field ++ codes "' must be exactly 32 bytes")))

  -- The closure `decode`.
  unfoldable pub decode_key : Str → Str → ServiceResult Bytes
  decode_key s field = do
    bytes ←
        map_err (λ e. secrets (codes "base64 decode error in '" ++ (field ++ (codes "': " ++ e))))
          (b64_decode s)
    sized field bytes

  -- The loop over the extra keys.
  unfoldable pub decode_extra :
      List (Str × Bytes) → List (Str × Str) → ServiceResult (List (Str × Bytes))
  unfolding decode_key
  decode_extra extra_keys [] = ok extra_keys
  decode_extra extra_keys ((name, val) ∷ rest) = do
    key ← decode_key val name
    decode_extra (insert str_eq name key extra_keys) rest

  -- The keys of a wire format, once its extra keys are read.
  unfoldable pub keys_of :
      Str → Str → Str → Str → Str → List (Str × Bytes) → ServiceResult SecretBundle
  unfolding decode_key
  keys_of iroh_text ipns_text signing_text encryption_text created_at extra_keys = do
    iroh ← decode_key iroh_text (codes "iroh")
    ipns ← decode_key ipns_text (codes "ipns")
    did_signing ← decode_key signing_text (codes "did_signing")
    did_encryption ← decode_key encryption_text (codes "did_encryption")
    ok (record {
      iroh_secret_key = iroh;
      ipns_secret_key = ipns;
      did_signing_key = did_signing;
      did_encryption_key = did_encryption;
      created_at = created_at;
      extra_keys = extra_keys;
    })

  unfoldable pub from_json_bytes : Bytes → ServiceResult SecretBundle
  unfolding decode_extra keys_of
  from_json_bytes data_bytes = do
    wire ←
        map_err (λ e. secrets (codes "failed to parse bundle JSON: " ++ e)) (from_slice data_bytes)
    extra_keys ← decode_extra [] wire.extra
    keys_of wire.iroh wire.ipns wire.did_signing wire.did_encryption wire.created_at extra_keys

  -- The random salt and nonce have 16 and 12 bytes.
  unfoldable pub encrypt : Bytes → Bytes → Str → SecretBundle → ServiceResult Bytes
  unfolding to_json_bytes
  encrypt salt nonce passphrase bundle = do
    key_bytes ← map_err secrets (hash_password passphrase salt)
    cipher ← map_err secrets (new_from_slice key_bytes)
    plaintext ← to_json_bytes bundle
    ciphertext ← map_err secrets (cipher_encrypt cipher nonce plaintext)
    ok (salt ++ (nonce ++ ciphertext))

  unfoldable pub decrypt : Bytes → Str → ServiceResult SecretBundle
  unfolding from_json_bytes
  decrypt sealed passphrase =
      if ltb (length sealed) 28 then err (secrets (codes "secret bundle too short")) else do
        key_bytes ← map_err secrets (hash_password passphrase (take 16 sealed))
        cipher ← map_err secrets (new_from_slice key_bytes)
        plaintext ←
            map_err (λ e. secrets (codes "decryption failed (wrong passphrase?)"))
              (cipher_decrypt cipher (take 12 (drop 16 sealed)) (drop 28 sealed))
        from_json_bytes plaintext
