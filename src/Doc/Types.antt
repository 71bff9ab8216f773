-- ===== src/Doc/Types.antt =====
-- The types of src/doc.rs and src/key.rs. A timestamp is its text; `Ipld` keeps the variants that
-- the code looks at, and any other value is `scalar` of its encoding.
use rust_ma_core.Common.{ℕ, Str, Bytes, codes, Option, List, [], ◌∷◌}
use rust_ma_core.Did.{Did}

abbrev pub default_did_context : List Str
default_did_context = codes "https://www.w3.org/ns/did/v1.1" ∷ []

abbrev pub default_proof_type : Str
default_proof_type = codes "MultiformatSignature2023"

abbrev pub default_proof_purpose : Str
default_proof_purpose = codes "assertionMethod"

abbrev pub multikey : Str
multikey = codes "Multikey"

abbrev pub codec_x25519_pub : ℕ
codec_x25519_pub = 0xec

abbrev pub codec_ed25519_pub : ℕ
codec_ed25519_pub = 0xed

abbrev pub codec_eddsa_sig : ℕ
codec_eddsa_sig = 0xd0ed

mutual
  pub data Ipld : Type 0 where
    null : Ipld
    text : Str → Ipld
    list : Items → Ipld
    map : Fields → Ipld
    scalar : Bytes → Ipld

  pub data Items : Type 0 where
    nil : Items
    item : Ipld → Items → Items

  pub data Fields : Type 0 where
    end : Fields
    field : Str → Ipld → Fields → Fields

pub record VerificationMethod : Type 0 where
  pub id : Str
  pub key_type : Str
  pub controller : Str
  pub public_key_multibase : Str

pub record Proof : Type 0 where
  pub proof_type : Str
  pub verification_method : Str
  pub proof_purpose : Str
  pub proof_value : Str

pub record Document : Type 0 where
  pub context : List Str
  pub id : Str
  pub controller : List Str
  pub verification_method : List VerificationMethod
  pub assertion_method : List Str
  pub key_agreement : List Str
  pub proof : Proof
  pub created_at : Str
  pub updated_at : Str
  pub ma : Option Ipld

pub record SigningKey : Type 0 where
  pub did : Did
  pub key_type : Str
  pub secret_key : Bytes
  pub public_key_multibase : Str

pub record EncryptionKey : Type 0 where
  pub did : Did
  pub key_type : Str
  pub private_key : Bytes
  pub public_key : Bytes
  pub public_key_multibase : Str
