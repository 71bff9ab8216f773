-- ===== src/Doc/Crates.antt =====
-- The crates that src/doc.rs and src/key.rs call, in one record: those of src/did.rs and
-- src/multiformat.rs, the cryptography, `serde_ipld_dagcbor` on documents and the `time` parser.
use rust_ma_core.Common.{Str, Bytes, Bool, true, [], Result, ok, err}
use rust_ma_core.External.Cids.{CidLib, toy_cids}
use rust_ma_core.External.Multi.{MultiLib, toy_multi}
use rust_ma_core.External.Crypto.{CryptoLib, toy_crypto}
use rust_ma_core.Doc.Types.{Document}

pub record DocCrates : Type 1 where
  pub cids : CidLib
  pub multi : MultiLib
  pub crypto : CryptoLib
  -- `serde_ipld_dagcbor::to_vec` and `from_slice`; the error is its text.
  pub to_vec : Document → Result Str Bytes
  pub from_slice : Bytes → Result Str Document
  -- `OffsetDateTime::parse(_, &Rfc3339).is_ok()`.
  pub rfc3339_parses : Str → Bool

-- An instance that writes the document's id only.
abbrev pub toy_doc_crates : DocCrates
toy_doc_crates = record {
  cids = toy_cids;
  multi = toy_multi;
  crypto = toy_crypto;
  to_vec = λ doc. ok doc.id;
  from_slice = λ b. err [];
  rfc3339_parses = λ s. true;
}
