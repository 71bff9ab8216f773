-- ===== src/Secrets/Documents.antt =====
-- What src/config/secrets.rs derives from a bundle: keys, the identity and its documents. The texts
-- of errors are the parameters `display` and `display_ma`; each `now` is a reading of the clock.
use rust_ma_core.Common.{Str, codes, head?, some, [], ◌++◌, ok, ok_or, map_err, ◌>>=◌}
use rust_ma_core.Error.{MaError, Error, ServiceResult, MaResult, secrets}
use rust_ma_core.Did
use rust_ma_core.Did.{Did}
use rust_ma_core.Doc.Types.{Document, SigningKey, EncryptionKey}
use rust_ma_core.Doc.Crates.{DocCrates}
use rust_ma_core.Doc.Extension.{MaExtension, set_ma_extension}
use rust_ma_core.Doc.Method.{signing_key_from_bytes, encryption_key_from_bytes}
use rust_ma_core.Doc.Operations.{get_verification_method_by_id, touch}
use rust_ma_core.Doc.Proving.{sign}
use rust_ma_core.Identity.{
  GeneratedIdentity, HexLib, PeerLib, build_identity_from_keys, ipns_from_secret,
}
use rust_ma_core.Secrets.{SecretBundle}

module _ (crates : DocCrates) (hex : HexLib) (peers : PeerLib crates.cids) (display : Error → Str)
    (display_ma : MaError → Str) where
  open crates use {cids}

  -- `map_err(|e| Error::Secrets(format!("<step>: {e}")))`.
  abbrev pub failing : {A : Type 0} → Str → ServiceResult A → ServiceResult A
  failing step r = map_err (λ e. secrets (step ++ (codes ": " ++ display e))) r

  abbrev pub failing_ma : {A : Type 0} → Str → MaResult A → ServiceResult A
  failing_ma step r = map_err (λ e. secrets (step ++ (codes ": " ++ display_ma e))) r

  unfoldable pub signing_key : SecretBundle → ServiceResult SigningKey
  signing_key bundle = do
    ipns ←
        failing (codes "ipns derivation") (ipns_from_secret crates hex peers bundle.ipns_secret_key)
    sign_did ← failing_ma (codes "sign did") (Did.new_url cids ipns (some (codes "sign")) [])
    ok (signing_key_from_bytes crates sign_did bundle.did_signing_key)

  unfoldable pub encryption_key : SecretBundle → ServiceResult EncryptionKey
  encryption_key bundle = do
    ipns ←
        failing (codes "ipns derivation failed")
          (ipns_from_secret crates hex peers bundle.ipns_secret_key)
    did ← failing_ma (codes "enc did") (Did.new_url cids ipns (some (codes "enc")) [])
    ok (encryption_key_from_bytes crates did bundle.did_encryption_key)

  -- `document.assertion_method[0]`; the error stands for the panic of an empty list.
  abbrev pub first_assertion : Document → ServiceResult Str
  first_assertion document =
      ok_or (head? document.assertion_method) (secrets (codes "index out of bounds"))

  unfoldable pub generate_identity : Str → SecretBundle → ServiceResult GeneratedIdentity
  unfolding encryption_key
  generate_identity now bundle = do
    ipns ←
        failing (codes "ipns derivation failed")
          (ipns_from_secret crates hex peers bundle.ipns_secret_key)
    sign_did ← failing_ma (codes "sign did") (Did.new_url cids ipns (some (codes "sign")) [])
    let own_key : SigningKey = signing_key_from_bytes crates sign_did bundle.did_signing_key
    enc_key ← encryption_key bundle
    identity ←
        failing (codes "identity generation failed")
          (build_identity_from_keys crates hex ipns own_key enc_key now)
    let restored : Document = record identity.document { created_at = bundle.created_at }
    id ← first_assertion restored
    vm ← failing_ma (codes "assertion vm") (get_verification_method_by_id restored id)
    signed ← failing_ma (codes "re-sign after created_at restore") (sign crates own_key vm restored)
    ok (record identity { document = signed })

  unfoldable pub build_document : Str → Str → MaExtension → SecretBundle → ServiceResult Document
  unfolding generate_identity
  build_document now touched ext bundle = do
    identity ← generate_identity now bundle
    ipns ←
        failing (codes "ipns derivation") (ipns_from_secret crates hex peers bundle.ipns_secret_key)
    sign_did ← failing_ma (codes "sign did") (Did.new_url cids ipns (some (codes "sign")) [])
    let own_key : SigningKey = signing_key_from_bytes crates sign_did bundle.did_signing_key
    id ← first_assertion identity.document
    vm ← failing_ma (codes "assertion vm") (get_verification_method_by_id identity.document id)
    failing_ma (codes "sign")
        (sign crates own_key vm (touch touched (set_ma_extension ext identity.document)))
