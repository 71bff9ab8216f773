-- ===== src/Secrets/RoundTrip.antt =====
-- Encrypting and decrypting a bundle of src/config/secrets.rs.
use rust_ma_core.Common.{
  Str, Bytes, false, ltb, str_eq, str_eq_iff, length, length-append, take-append, drop-append,
  append_assoc, subst, drop, Option, none, some, List, [], ◌∷◌, ◌++◌, ok, map_err, ◌≡◌, refl, ◌∙◌,
  arith, >>=-eq-ok, map_err-eq-ok, Option-cases,
}
use rust_ma_core.Common.Maps.{get, insert, get-insert}
use rust_ma_core.Error.{secrets}
use rust_ma_core.Secrets.{
  SecretBundle, SecretsLib, encode_extra, to_json_bytes, decode_key, decode_extra, keys_of,
  from_json_bytes, encrypt, decrypt, get_key,
}

-- No name stands twice.
abbrev pub IsMap : List (Str × Bytes) → Type 0
IsMap [] = Unit
IsMap ((name, key) ∷ rest) = (get str_eq name rest ≡ none) × IsMap rest

abbrev pub AllSized : List (Str × Bytes) → Type 0
AllSized [] = Unit
AllSized ((name, key) ∷ rest) = (length key ≡ 32) × AllSized rest

-- What the types of the source say: keys of 32 bytes, and a map.
pub record IsBundle (bundle : SecretBundle) : Type 0 where
  pub iroh : length bundle.iroh_secret_key ≡ 32
  pub ipns : length bundle.ipns_secret_key ≡ 32
  pub did_signing : length bundle.did_signing_key ≡ 32
  pub did_encryption : length bundle.did_encryption_key ≡ 32
  pub sized_extra : AllSized bundle.extra_keys
  pub map : IsMap bundle.extra_keys

-- The same keys under the same names.
pub record IsSame (a b : SecretBundle) : Type 0 where
  pub iroh : a.iroh_secret_key ≡ b.iroh_secret_key
  pub ipns : a.ipns_secret_key ≡ b.ipns_secret_key
  pub did_signing : a.did_signing_key ≡ b.did_signing_key
  pub did_encryption : a.did_encryption_key ≡ b.did_encryption_key
  pub created_at : a.created_at ≡ b.created_at
  pub extra : (name : Str) → get_key name a ≡ get_key name b

abbrev or_else : Option Bytes → Option Bytes → Option Bytes
or_else none o = o
or_else (some a) o = some a

module _ (lib : SecretsLib) where
  open lib use {b64_encode, b64_round_trip, json_round_trip, cipher_round_trip, hash_password}

  decode_key-encode :
      (key : Bytes) (field : Str) → length key ≡ 32 → decode_key lib (b64_encode key) field ≡ ok key
  unfolding decode_key
  decode_key-encode key field h = rw (b64_round_trip key, h) refl

  decode_extra-encode_extra :
      (acc xs : List (Str × Bytes))
      → AllSized xs
      → IsMap xs
      → (r : List (Str × Bytes)) × (decode_extra lib acc (encode_extra lib xs) ≡ ok r)
        × ((n : Str) → get str_eq n r ≡ or_else (get str_eq n xs) (get str_eq n acc))
  unfolding decode_extra
  decode_extra-encode_extra acc [] s m = (acc, refl, λ n. refl)
  decode_extra-encode_extra acc ((name, key) ∷ rest) s m =
      let (r, made, found) =
        decode_extra-encode_extra (insert str_eq name key acc) rest (s.1) (m.1) in
      (
        r,
        rw (decode_key-encode key name (s.0)) made,
        λ n. ground (
          arith,
          found n,
          get-insert str_eq str_eq_iff name n key acc,
          str_eq_iff name n,
          m.0,
          Option-cases (get str_eq n rest),
        ),
      )

  from_json_bytes-to_json_bytes :
      (bundle : SecretBundle) (plain : Bytes)
      → IsBundle bundle
      → to_json_bytes lib bundle ≡ ok plain
      → (restored : SecretBundle) × (from_json_bytes lib plain ≡ ok restored)
        × IsSame restored bundle
  unfolding to_json_bytes from_json_bytes keys_of get_key
  from_json_bytes-to_json_bytes bundle plain v h =
      let (extra, made, found) =
        decode_extra-encode_extra [] bundle.extra_keys v.sized_extra v.map in
      (
        record bundle { extra_keys = extra },
        rw
            (
              json_round_trip _ (map_err-eq-ok secrets _ h),
              made,
              decode_key-encode bundle.iroh_secret_key _ v.iroh,
              decode_key-encode bundle.ipns_secret_key _ v.ipns,
              decode_key-encode bundle.did_signing_key _ v.did_signing,
              decode_key-encode bundle.did_encryption_key _ v.did_encryption,
            )
            refl,
        record {
          iroh = refl;
          ipns = refl;
          did_signing = refl;
          did_encryption = refl;
          created_at = refl;
          extra = λ n. found n ∙ or_else-none (get str_eq n bundle.extra_keys);
        },
      )
    where
      or_else-none : (o : Option Bytes) → or_else o none ≡ o
      or_else-none none = refl
      or_else-none (some a) = refl

  -- The parts of a sealed bundle, at any key, cipher and plain text.
  decrypt_parts :
      (salt nonce text key plain : Bytes) (cipher : lib.Cipher) (passphrase : Str)
      → length salt ≡ 16
      → length nonce ≡ 12
      → hash_password passphrase salt ≡ ok key
      → lib.new_from_slice key ≡ ok cipher
      → lib.cipher_decrypt cipher nonce text ≡ ok plain
      → decrypt lib (salt ++ (nonce ++ text)) passphrase ≡ from_json_bytes lib plain
  unfolding decrypt
  decrypt_parts salt nonce text key plain cipher passphrase salt_len nonce_len hashed made opened =
      let long : ltb (length (salt ++ (nonce ++ text))) 28 ≡ false = ground (
        arith,
        length-append salt (nonce ++ text),
        length-append nonce text,
        salt_len,
        nonce_len,
      ) in
      let text_part : drop 28 (salt ++ (nonce ++ text)) ≡ text =
        rw (← append_assoc salt nonce text) (
          drop-append 28 (salt ++ nonce) text
            (omega (arith, length-append salt nonce, salt_len, nonce_len))) in
      rw
        (
          decrypt,
          long,
          take-append 16 salt (nonce ++ text) salt_len,
          hashed,
          made,
          drop-append 16 salt (nonce ++ text) salt_len,
          take-append 12 nonce text nonce_len,
          text_part,
          opened,
        )
        refl

  -- A bundle that was encrypted with a salt of 16 and a nonce of 12 bytes is decrypted, with the
  -- same passphrase, to the same keys under the same names.
  pub decrypt-encrypt :
      (salt nonce sealed : Bytes) (passphrase : Str) (bundle : SecretBundle)
      → IsBundle bundle
      → length salt ≡ 16
      → length nonce ≡ 12
      → encrypt lib salt nonce passphrase bundle ≡ ok sealed
      → (restored : SecretBundle) × (decrypt lib sealed passphrase ≡ ok restored)
        × IsSame restored bundle
  unfolding encrypt
  decrypt-encrypt salt nonce sealed passphrase bundle v salt_len nonce_len h =
      let (key, hashed, h1) = >>=-eq-ok (map_err secrets (hash_password passphrase salt)) _ h in
      let (cipher, p2, h2) = >>=-eq-ok (map_err secrets (lib.new_from_slice key)) _ h1 in
      let (plain, p3, h3) = >>=-eq-ok (to_json_bytes lib bundle) _ h2 in
      let (text, p4, h4) =
        >>=-eq-ok (map_err secrets (lib.cipher_encrypt cipher nonce plain)) _ h3 in
      let (restored, read, same) = from_json_bytes-to_json_bytes bundle plain v p3 in
      let whole : salt ++ (nonce ++ text) ≡ sealed = ground (arith, h4) in
      (
        restored,
        subst (λ s. decrypt lib s passphrase ≡ ok restored) whole
            (decrypt_parts salt nonce text key plain cipher passphrase salt_len nonce_len
                (map_err-eq-ok secrets _ hashed) (map_err-eq-ok secrets _ p2)
                (cipher_round_trip cipher nonce plain (map_err-eq-ok secrets _ p4))
              ∙ read),
        same,
      )
