-- ===== src/External/Crypto.antt =====
-- The crates `ed25519_dalek`, `x25519_dalek`, `chacha20poly1305` and `blake3`, as src/key.rs,
-- src/doc.rs and src/msg.rs use them. Keys, digests and ciphertexts are byte lists; the laws state
-- that what is made with a key is accepted with its counterpart, never that anything is unforgeable.
use rust_ma_core.Common.{
  ℕ, zero, suc, Str, Bytes, Bool, true, str_eq, str_eq_refl, Option, none, some, [], ◌∷◌, ◌≡◌, refl,
  ap, arith, length,
}

pub record CryptoLib : Type 1 where
  -- `VerifyingKey` and `Signature` of ed25519.
  pub VerifyingKey : Type 0
  pub Signature : Type 0
  pub verifying_key_from_bytes : Bytes → Option VerifyingKey
  pub signature_from_slice : Bytes → Option Signature
  pub ed25519_verify : VerifyingKey → Bytes → Signature → Bool
  -- The bytes of a secret's public key, and `sign(_).to_bytes()`.
  pub ed25519_public : Bytes → Bytes
  pub ed25519_sign : Bytes → Bytes → Bytes
  -- `PublicKey::from(&secret)` and `diffie_hellman(_).to_bytes()`.
  pub x25519_public : Bytes → Bytes
  pub x25519_shared : Bytes → Bytes → Bytes
  -- `blake3::hash` and `blake3::derive_key`.
  pub blake3_hash : Bytes → Bytes
  pub blake3_derive_key : Str → Bytes → Bytes
  -- XChaCha20-Poly1305: key, nonce, data.
  pub aead_encrypt : Bytes → Bytes → Bytes → Option Bytes
  pub aead_decrypt : Bytes → Bytes → Bytes → Option Bytes
  pub ed25519_public_length : (secret : Bytes) → length (ed25519_public secret) ≡ 32
  pub ed25519_correct :
      (secret msg : Bytes)
      → (key : VerifyingKey) × (sig : Signature) × (verifying_key_from_bytes (ed25519_public secret)
          ≡ some key)
        × (signature_from_slice (ed25519_sign secret msg) ≡ some sig)
        × (ed25519_verify key msg sig ≡ true)
  pub ed25519_sign_nonempty : (secret msg : Bytes) → length (ed25519_sign secret msg) ≡ 64
  pub x25519_public_length : (secret : Bytes) → length (x25519_public secret) ≡ 32
  pub x25519_agree :
      (a b : Bytes) → x25519_shared a (x25519_public b) ≡ x25519_shared b (x25519_public a)
  pub aead_correct :
      (key nonce msg : Bytes) {sealed : Bytes}
      → aead_encrypt key nonce msg ≡ some sealed
      → aead_decrypt key nonce sealed ≡ some msg
  -- A ciphertext ends in a tag, so it is never empty.
  pub aead_nonempty :
      (key nonce msg : Bytes) {sealed : Bytes}
      → aead_encrypt key nonce msg ≡ some sealed
      → (c : ℕ) × (rest : Bytes) × (sealed ≡ c ∷ rest)

-- The first `n` bytes, filled up with zeros.
abbrev pub pad : ℕ → Bytes → Bytes
pad zero b = []
pad (suc n) [] = 0 ∷ pad n []
pad (suc n) (c ∷ b) = c ∷ pad n b

pub length-pad : (n : ℕ) (b : Bytes) → length (pad n b) ≡ n
length-pad zero b = refl
length-pad (suc n) [] = ap suc (length-pad n [])
length-pad (suc n) (c ∷ b) = ap suc (length-pad n b)

abbrev pub toy_decrypt : Bytes → Bytes → Bytes → Option Bytes
toy_decrypt key nonce [] = none
toy_decrypt key nonce (c ∷ b) = some b

abbrev pub toy_encrypt : Bytes → Bytes → Bytes → Option Bytes
toy_encrypt key nonce b = some (7 ∷ b)

pub toy_aead_correct :
    (key nonce msg : Bytes) {sealed : Bytes}
    → toy_encrypt key nonce msg ≡ some sealed
    → toy_decrypt key nonce sealed ≡ some msg
toy_aead_correct key nonce msg {sealed = []} h = cc
toy_aead_correct key nonce msg {sealed = c ∷ b} h = ground arith

pub toy_aead_nonempty :
    (key nonce msg : Bytes) {sealed : Bytes}
    → toy_encrypt key nonce msg ≡ some sealed
    → (c : ℕ) × (rest : Bytes) × (sealed ≡ c ∷ rest)
toy_aead_nonempty key nonce msg h = (7, msg, ground arith)

pub toy_ed25519_correct :
    (secret msg : Bytes)
    → (key : Bytes) × (sig : Bytes) × (some (pad 32 secret) ≡ some key)
      × (some (pad 64 msg) ≡ some sig)
      × (str_eq (pad 64 msg) sig ≡ true)
toy_ed25519_correct secret msg = (pad 32 secret, pad 64 msg, refl, refl, str_eq_refl (pad 64 msg))

-- An instance: a signature is the padded data, a shared secret is empty, encryption adds a byte.
abbrev pub toy_crypto : CryptoLib
toy_crypto = record {
  VerifyingKey = Bytes;
  Signature = Bytes;
  verifying_key_from_bytes = λ b. some b;
  signature_from_slice = λ b. some b;
  ed25519_verify = λ key msg sig. str_eq (pad 64 msg) sig;
  ed25519_public = pad 32;
  ed25519_sign = λ secret msg. pad 64 msg;
  x25519_public = pad 32;
  x25519_shared = λ a b. [];
  blake3_hash = pad 32;
  blake3_derive_key = λ label b. b;
  aead_encrypt = toy_encrypt;
  aead_decrypt = toy_decrypt;
  ed25519_public_length = length-pad 32;
  ed25519_correct = toy_ed25519_correct;
  ed25519_sign_nonempty = λ secret msg. length-pad 64 msg;
  x25519_public_length = length-pad 32;
  x25519_agree = λ a b. refl;
  aead_correct = λ key nonce msg h. toy_aead_correct key nonce msg h;
  aead_nonempty = λ key nonce msg h. toy_aead_nonempty key nonce msg h;
}
