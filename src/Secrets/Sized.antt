-- ===== src/Secrets/Sized.antt =====
-- What a bundle that src/config/secrets.rs reads back is made of, and its names.
use rust_ma_core.Common.{
  Str, Bytes, codes, true, ◌==◌, ==_iff, str_eq, str_eq_iff, length, ltb, take, drop, none, List,
  [], ◌∷◌, ok, map_err, ◌++◌, ◌≡◌, refl, subst, arith, >>=-eq-ok, Bool-cases, inl, inr,
}
use rust_ma_core.Common.Maps.{get, insert, remove, get-remove}
use rust_ma_core.Error.{ServiceResult, secrets}
use rust_ma_core.Secrets.{
  SecretBundle, SecretsLib, decode_key, keys_of, decode_extra, from_json_bytes, decrypt,
}
use rust_ma_core.Secrets.RoundTrip.{IsMap, AllSized, IsBundle}

AllSized-remove :
    (name : Str) (xs : List (Str × Bytes)) → AllSized xs → AllSized (remove str_eq name xs)
AllSized-remove name [] h = tt
AllSized-remove name ((n, key) ∷ rest) h = elim (Bool-cases (str_eq n name)) [
  | inl same ↦ rw same (AllSized-remove name rest (h.1))
  | inr other ↦ rw other (h.0, AllSized-remove name rest (h.1))
]

IsMap-remove : (name : Str) (xs : List (Str × Bytes)) → IsMap xs → IsMap (remove str_eq name xs)
IsMap-remove name [] h = tt
IsMap-remove name ((n, key) ∷ rest) h = elim (Bool-cases (str_eq n name)) [
  | inl same ↦ rw same (IsMap-remove name rest (h.1))
  | inr other ↦
      let absent : get str_eq n (remove str_eq name rest) ≡ none =
        ground (arith, get-remove str_eq str_eq_iff name n rest, h.0, Bool-cases (str_eq name n)) in
      rw other (absent, IsMap-remove name rest (h.1))
]

-- An insertion keeps a map of keys of 32 bytes one.
IsMap-insert :
    (name : Str) (key : Bytes) (xs : List (Str × Bytes))
    → IsMap xs
    → IsMap (insert str_eq name key xs)
IsMap-insert name key xs h = (
  ground (arith, get-remove str_eq str_eq_iff name name xs, (str_eq_iff name name).1 refl),
  IsMap-remove name xs h,
)

module _ (lib : SecretsLib) where
  decode_key-sized :
      (s field : Str) (key : Bytes) → decode_key lib s field ≡ ok key → length key ≡ 32
  unfolding decode_key
  decode_key-sized s field key h =
      let (bytes, p1, h1) = >>=-eq-ok (map_err _ (lib.b64_decode s)) _ h in
      elim (Bool-cases (length bytes == 32)) [
        | inl fits ↦
            let same : bytes ≡ key = ground (arith, h1, fits) in
            (==_iff (length key) 32).0 (subst (λ b. (length b == 32) ≡ true) same fits)
        | inr other ↦ absurd (ground (arith, h1, other))
      ]

  decode_extra-IsMap :
      (acc : List (Str × Bytes)) (wire : List (Str × Str)) (extra : List (Str × Bytes))
      → decode_extra lib acc wire ≡ ok extra
      → AllSized acc
      → IsMap acc
      → AllSized extra × IsMap extra
  unfolding decode_extra
  decode_extra-IsMap acc [] extra h s m =
      let same : acc ≡ extra = ground (arith, h) in subst (λ x. AllSized x × IsMap x) same (s, m)
  decode_extra-IsMap acc ((name, val) ∷ rest) extra h s m =
      let (key, p1, h1) = >>=-eq-ok (decode_key lib val name) _ h in
      decode_extra-IsMap (insert str_eq name key acc) rest extra h1
        (decode_key-sized val name key p1, AllSized-remove name acc s) (IsMap-insert name key acc m)

  ok_injective : {a b : SecretBundle} → ◌≡◌ {A = ServiceResult SecretBundle} (ok a) (ok b) → a ≡ b
  ok_injective e = ground (arith, e)

  -- The four keys of a wire format, at extra keys that are read.
  keys-IsBundle :
      (iroh_text ipns_text signing_text encryption_text created : Str) (extra : List (Str × Bytes))
      (bundle : SecretBundle)
      → AllSized extra × IsMap extra
      → keys_of lib iroh_text ipns_text signing_text encryption_text created extra ≡ ok bundle
      → IsBundle bundle
  unfolding keys_of
  keys-IsBundle iroh_text ipns_text signing_text encryption_text created extra bundle v h =
      let (iroh, p1, h1) = >>=-eq-ok (decode_key lib iroh_text (codes "iroh")) _ h in
      let (ipns, p2, h2) = >>=-eq-ok (decode_key lib ipns_text (codes "ipns")) _ h1 in
      let (signing, p3, h3) = >>=-eq-ok (decode_key lib signing_text (codes "did_signing")) _ h2 in
      let (encryption, p4, h4) =
        >>=-eq-ok (decode_key lib encryption_text (codes "did_encryption")) _ h3 in
      subst (λ b. IsBundle b) (ok_injective h4)
        (record {
          iroh = decode_key-sized iroh_text (codes "iroh") iroh p1;
          ipns = decode_key-sized ipns_text (codes "ipns") ipns p2;
          did_signing = decode_key-sized signing_text (codes "did_signing") signing p3;
          did_encryption = decode_key-sized encryption_text (codes "did_encryption") encryption p4;
          sized_extra = v.0;
          map = v.1;
        })

  from_json_bytes-IsBundle :
      (plain : Bytes) (bundle : SecretBundle)
      → from_json_bytes lib plain ≡ ok bundle
      → IsBundle bundle
  unfolding from_json_bytes
  from_json_bytes-IsBundle plain bundle h =
      let (wire, p1, h1) =
        >>=-eq-ok
          (map_err (λ e. secrets (codes "failed to parse bundle JSON: " ++ e))
            (lib.from_slice plain))
          _ h in
      let (extra, p2, h2) = >>=-eq-ok (decode_extra lib [] wire.extra) _ h1 in
      keys-IsBundle wire.iroh wire.ipns wire.did_signing wire.did_encryption wire.created_at extra
        bundle (decode_extra-IsMap [] wire.extra extra p2 tt tt) h2

  -- Whatever bytes are decrypted, with whatever passphrase, the result is a bundle of keys of 32
  -- bytes, under names that stand there once.
  pub decrypt-IsBundle :
      (sealed : Bytes) (passphrase : Str) (bundle : SecretBundle)
      → decrypt lib sealed passphrase ≡ ok bundle
      → IsBundle bundle
  unfolding decrypt
  decrypt-IsBundle sealed passphrase bundle h = elim (Bool-cases (ltb (length sealed) 28)) [
    | inl short ↦ absurd (ground (arith, h, short))
    | inr long ↦
        let (key, p1, h1) =
          >>=-eq-ok (map_err secrets (lib.hash_password passphrase (take 16 sealed))) _
            (rw long at h) in
        let (cipher, p2, h2) = >>=-eq-ok (map_err secrets (lib.new_from_slice key)) _ h1 in
        let (plain, p3, h3) =
          >>=-eq-ok
            (map_err (λ e. secrets (codes "decryption failed (wrong passphrase?)"))
              (lib.cipher_decrypt cipher (take 12 (drop 16 sealed)) (drop 28 sealed)))
            _ h2 in
        from_json_bytes-IsBundle plain bundle h3
  ]
