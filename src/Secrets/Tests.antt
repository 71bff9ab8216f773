-- ===== src/Secrets/Tests.antt =====
-- The theorems on src/config/secrets.rs at a concrete bundle, over the toy crates.
use rust_ma_core.Common.{
  leb, ◌==◌, none, if◌then◌else◌, ℕ, zero, suc, Str, Bytes, codes, true, length, take, drop,
  take-append, drop-append, ◌++◌, is_ascii_alphanumeric, all, map, some, List, [], ◌∷◌, ok, ◌≡◌,
  refl, sym, ap, subst, arith, Result,
}
use rust_ma_core.Error.{MaError, Error}
use rust_ma_core.External.Crypto.{pad}
use rust_ma_core.Did.{Did}
use rust_ma_core.Doc.Types.{Document, end, field, text}
use rust_ma_core.Doc.Crates.{toy_doc_crates}
use rust_ma_core.Doc.Extension.{MaExtension, get, ma_field}
use rust_ma_core.Doc.Method.{signing_key_from_bytes}
use rust_ma_core.Doc.Tests.{now}
use rust_ma_core.Msg.Crates.{toy_msg_crates}
use rust_ma_core.Identity.Complete.{IsWorking}
use rust_ma_core.Identity.Tests.{toy_hex, toy_peers, peer, is_timed}
use rust_ma_core.Secrets.{SecretBundle, BundleJson, SecretsLib, encrypt, decrypt}
use rust_ma_core.Secrets.RoundTrip.{IsBundle, IsSame, decrypt-encrypt}
use rust_ma_core.Secrets.Sized.{decrypt-IsBundle}
use rust_ma_core.Secrets.Passphrase.{
  char_of, accepted, generate_passphrase, generate_passphrase_lem,
}
use rust_ma_core.Secrets.Documents.{build_document, signing_key}
use rust_ma_core.Secrets.Identities.{build_document-IsWorking}

-- A text behind its length.
abbrev put : Str → Bytes → Bytes
put s rest = length s ∷ (s ++ rest)

abbrev front : Bytes → Bytes
front [] = []
front (n ∷ b) = take n b

abbrev back : Bytes → Bytes
back [] = []
back (n ∷ b) = drop n b

abbrev put_extra : List (Str × Str) → Bytes
put_extra [] = []
put_extra ((name, val) ∷ rest) = put name (put val (put_extra rest))

abbrev extra_of : ℕ → Bytes → List (Str × Str)
extra_of zero b = []
extra_of (suc n) b = (front b, front (back b)) ∷ extra_of n (back (back b))

abbrev count : List (Str × Str) → ℕ
count [] = 0
count (x ∷ rest) = suc (count rest)

front-put : (s : Str) (rest : Bytes) → front (put s rest) ≡ s
front-put s rest = take-append (length s) s rest refl

back-put : (s : Str) (rest : Bytes) → back (put s rest) ≡ rest
back-put s rest = drop-append (length s) s rest refl

extra_of-put_extra : (xs : List (Str × Str)) → extra_of (count xs) (put_extra xs) ≡ xs
extra_of-put_extra [] = refl
extra_of-put_extra ((name, val) ∷ rest) =
    rw
      (
        back-put name (put val (put_extra rest)),
        front-put name (put val (put_extra rest)),
        front-put val (put_extra rest),
        back-put val (put_extra rest),
        extra_of-put_extra rest,
      )
      refl

abbrev written : BundleJson → Bytes
written w = put w.iroh (
    put w.ipns (
      put w.did_signing
        (put w.did_encryption (put w.created_at (count w.extra ∷ put_extra w.extra)))))

abbrev counted : Bytes → List (Str × Str)
counted [] = []
counted (n ∷ b) = extra_of n b

abbrev restored : Bytes → BundleJson
restored b = record {
  iroh = front b;
  ipns = front (back b);
  did_signing = front (back (back b));
  did_encryption = front (back (back (back b)));
  created_at = front (back (back (back (back b))));
  extra = counted (back (back (back (back (back b)))));
}

restored-written : (w : BundleJson) → restored (written w) ≡ w
restored-written w =
    let t5 : Bytes = count w.extra ∷ put_extra w.extra in
    let t4 : Bytes = put w.created_at t5 in
    let t3 : Bytes = put w.did_encryption t4 in
    let t2 : Bytes = put w.did_signing t3 in
    let t1 : Bytes = put w.ipns t2 in
    rw
      (
        back-put w.iroh t1,
        back-put w.ipns t2,
        back-put w.did_signing t3,
        back-put w.did_encryption t4,
        back-put w.created_at t5,
        front-put w.iroh t1,
        front-put w.ipns t2,
        front-put w.did_signing t3,
        front-put w.did_encryption t4,
        front-put w.created_at t5,
        extra_of-put_extra w.extra,
      )
      refl

abbrev json : BundleJson → Result Str Bytes
json w = ok (written w)

is_written : {a b : Bytes} → ◌≡◌ {A = Result Str Bytes} (ok a) (ok b) → a ≡ b
is_written e = ground (arith, e)

-- The plain text behind the nonce, under a key that is the passphrase.
abbrev toy_secrets : SecretsLib
toy_secrets = record {
  b64_encode = λ b. b;
  b64_decode = λ s. ok s;
  to_vec = json;
  from_slice = λ b. ok (restored b);
  hash_password = λ passphrase salt. ok passphrase;
  Cipher = Bytes;
  new_from_slice = λ key. ok key;
  cipher_encrypt = λ c nonce plain. ok plain;
  cipher_decrypt = λ c nonce sealed. ok sealed;
  b64_round_trip = λ b. refl;
  json_round_trip = λ w h.
      subst (λ b. ◌≡◌ {A = Result Str BundleJson} (ok (restored b)) (ok w)) (is_written h)
        (ap ok (restored-written w));
  cipher_round_trip = λ c nonce plain h. ap ok (sym (is_written h));
}

abbrev key : ℕ → Bytes
key n = pad 32 (n ∷ [])

abbrev bundle : SecretBundle
bundle = record {
  iroh_secret_key = key 1;
  ipns_secret_key = key 2;
  did_signing_key = key 3;
  did_encryption_key = key 4;
  created_at = now;
  extra_keys = (codes "door", key 5) ∷ (codes "gate", key 6) ∷ [];
}

bundle-IsBundle : IsBundle bundle
bundle-IsBundle = record {
  iroh = refl;
  ipns = refl;
  did_signing = refl;
  did_encryption = refl;
  sized_extra = (refl, (refl, tt));
  map = (refl, (refl, tt));
}

abbrev salt : Bytes
salt = pad 16 (7 ∷ [])

abbrev nonce : Bytes
nonce = pad 12 (8 ∷ [])

abbrev pass : Str
pass = codes "pass"

abbrev plain : Bytes
plain = written (record {
  iroh = key 1;
  ipns = key 2;
  did_signing = key 3;
  did_encryption = key 4;
  created_at = now;
  extra = (codes "door", key 5) ∷ (codes "gate", key 6) ∷ [];
})

abbrev sealed : Bytes
sealed = salt ++ (nonce ++ plain)

is_sealed : encrypt toy_secrets salt nonce pass bundle ≡ ok sealed
unfolding encrypt
is_sealed = refl

decrypt-encrypt_example :
    (again : SecretBundle) × (decrypt toy_secrets sealed pass ≡ ok again) × IsSame again bundle
decrypt-encrypt_example =
    decrypt-encrypt toy_secrets salt nonce sealed pass bundle bundle-IsBundle refl refl is_sealed

-- The last key that is read stands first.
abbrev again : SecretBundle
again = record bundle { extra_keys = (codes "gate", key 6) ∷ (codes "door", key 5) ∷ [] }

is_opened : decrypt toy_secrets sealed pass ≡ ok again
unfolding decrypt
is_opened = refl

decrypt-IsBundle_example : IsBundle again
decrypt-IsBundle_example = decrypt-IsBundle toy_secrets sealed pass again is_opened

-- Fifty bytes in two buffers, of which one is too large.
abbrev buffers : List Bytes
buffers = (255 ∷ pad 24 (61 ∷ 62 ∷ [])) ∷ pad 25 (100 ∷ []) ∷ []

generate_passphrase_lem_example :
    (generate_passphrase buffers ≡ (
      if leb 43 (length (accepted buffers))
      then some (map char_of (take 43 (accepted buffers)))
      else none))
    × ((length (map char_of (take 43 (accepted buffers))) == 43)
        ≡ leb 43 (length (accepted buffers)))
    × (all is_ascii_alphanumeric (map char_of (take 43 (accepted buffers))) ≡ true)
generate_passphrase_lem_example = generate_passphrase_lem buffers

-- 43 such bytes are there, so that a passphrase is returned.
is_long : leb 43 (length (accepted buffers)) ≡ true
is_long = refl

abbrev show : Error → Str
show e = codes "error"

abbrev show_ma : MaError → Str
show_ma e = codes "error"

abbrev ext : MaExtension
ext = record { fields = field (codes "type") (text (codes "agent")) end }

abbrev sign_did : Did
sign_did = record { ipns = peer; fragment = some (codes "sign") }

build_document-IsWorking_example :
    (document : Document) × (build_document toy_doc_crates toy_hex toy_peers show show_ma now now
        ext bundle
      ≡ ok document)
    × IsWorking toy_msg_crates toy_hex peer bundle.did_signing_key bundle.did_encryption_key
        document
    × ((name : Str) → ma_field name document ≡ get name ext.fields)
    × (document.created_at ≡ bundle.created_at)
    × (document.updated_at ≡ now)
    × (signing_key toy_doc_crates toy_hex toy_peers show show_ma bundle
        ≡ ok (signing_key_from_bytes toy_doc_crates sign_did bundle.did_signing_key))
build_document-IsWorking_example =
    build_document-IsWorking toy_msg_crates toy_hex toy_peers show show_ma bundle peer refl now now
      ext is_timed is_timed is_timed (λ d. (d.id, refl))
