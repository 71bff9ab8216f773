-- ===== src/Doc/Operations.antt =====
-- The operations of `Document` in src/doc.rs that build or change a document. The current time is
-- an argument, as its RFC 3339 text.
use rust_ma_core.Common.{
  Str, Bytes, Bool, ◌||◌, any, str_eq, Option, none, some, List, [], ◌∷◌, ◌++◌, ok, ok_or, map_err,
  ◌>>◌, if◌then◌else◌,
}
use rust_ma_core.Error.{MaResult, unknown_verification_method, cbor_encode, cbor_decode}
use rust_ma_core.Did
use rust_ma_core.Did.{Did}
use rust_ma_core.Doc.Types.{VerificationMethod, Document, Ipld, Fields, default_did_context}
use rust_ma_core.Doc.Crates.{DocCrates}
use rust_ma_core.Doc.Method.{no_proof, validate_method}

unfoldable pub new : Did → Did → Str → Document
new identity controller now = record {
  context = default_did_context;
  id = Did.base_id identity;
  controller = Did.base_id controller ∷ [];
  verification_method = [];
  assertion_method = [];
  key_agreement = [];
  proof = no_proof;
  created_at = now;
  updated_at = now;
  ma = none;
}

unfoldable pub set_ma : Ipld → Document → Document
set_ma Ipld.null doc = record doc { ma = none }
set_ma (Ipld.map Fields.end) doc = record doc { ma = none }
set_ma ma doc = record doc { ma = some ma }

unfoldable pub clear_ma : Document → Document
clear_ma doc = record doc { ma = none }

unfoldable pub touch : Str → Document → Document
touch now doc = record doc { updated_at = now }

-- `iter().find(|method| method.id == method_id)`.
unfoldable pub find_method : Str → List VerificationMethod → Option VerificationMethod
find_method method_id [] = none
find_method method_id (method ∷ rest) =
    let later = find_method method_id rest in
    if str_eq method.id method_id then some method else later

unfoldable pub get_verification_method_by_id : Document → Str → MaResult VerificationMethod
unfolding find_method
get_verification_method_by_id doc method_id =
    ok_or (find_method method_id doc.verification_method) (unknown_verification_method method_id)

-- The test that `add_verification_method` makes of each existing method.
abbrev pub is_duplicate : VerificationMethod → VerificationMethod → Bool
is_duplicate method existing =
    str_eq existing.id method.id || str_eq existing.public_key_multibase method.public_key_multibase

module _ (crates : DocCrates) where
  open crates use {cids, to_vec, from_slice}

  unfoldable pub encode : Document → MaResult Bytes
  encode doc = map_err cbor_encode (to_vec doc)

  unfoldable pub decode : Bytes → MaResult Document
  decode bytes = map_err cbor_decode (from_slice bytes)

  unfoldable pub add_controller : Str → Document → MaResult Document
  add_controller controller doc = do
    Did.validate cids controller
    ok (
        if any (str_eq controller) doc.controller
        then doc
        else record doc { controller = doc.controller ++ controller ∷ [] })

  unfoldable pub add_verification_method : VerificationMethod → Document → MaResult Document
  add_verification_method method doc = do
    validate_method crates method
    ok (
        if any (is_duplicate method) doc.verification_method
        then doc
        else record doc { verification_method = doc.verification_method ++ method ∷ [] })
