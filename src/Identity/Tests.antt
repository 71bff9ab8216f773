-- ===== src/Identity/Tests.antt =====
-- The theorems on src/identity.rs at concrete secrets, over the toy crates.
use rust_ma_core.Common.{
  Str, Bytes, codes, true, is_some, str_eq, str_eq_refl, ok_or, none, some, List, [], ◌∷◌, ok, err,
  ◌≡◌, refl, arith, Result,
}
use rust_ma_core.Common.Maps.{get}
use rust_ma_core.Error.{secret_key}
use rust_ma_core.External.Cids.{toy_cids}
use rust_ma_core.External.Crypto.{pad}
use rust_ma_core.Did.{validate_identifier, validate_fragment}
use rust_ma_core.Doc.Crates.{toy_doc_crates}
use rust_ma_core.Doc.Proving.{is_valid_rfc3339_utc}
use rust_ma_core.Doc.Tests.{now, secret}
use rust_ma_core.Msg.Crates.{toy_msg_crates}
use rust_ma_core.Identity.{
  GeneratedIdentity, HexLib, PeerLib, ipns_from_secret, generate_identity_from_secret,
}
use rust_ma_core.Identity.Complete.{IsComplete}
use rust_ma_core.Identity.Derived.{generate_identity_from_secret-IsComplete}
use rust_ma_core.Identity.KeyFile.{
  FileLib, generate_secret_key_file, load_secret_key_bytes, load-generate_secret_key_file,
}

abbrev pub toy_hex : HexLib
toy_hex = record { encode = λ b. b; decode = λ s. some s; hex_round_trip = λ b. refl }

-- Every secret has the same peer id.
abbrev pub peer : Bytes
peer = codes "k51"

pub is_peer : {h : Bytes} → some peer ≡ some h → peer ≡ h
is_peer e = ground (arith, e)

abbrev pub toy_peers : PeerLib toy_cids
toy_peers = record {
  keypair_multihash = λ s. some peer;
  new_v1 = λ c h. peer;
  new_v1_parts = λ s h e. (refl, refl, is_peer e);
  text_round_trip = λ s h e. refl;
  text_nonempty = λ s h e. refl;
  peer_key = λ s h e. (h, h, refl, refl, refl);
}

pub is_timed : is_valid_rfc3339_utc toy_doc_crates now ≡ true
unfolding is_valid_rfc3339_utc
is_timed = refl

is_fragment : validate_fragment (codes "f1") ≡ ok tt
unfolding validate_fragment
is_fragment = refl

generate_identity_from_secret-IsComplete_example :
    (ipns : Str) × (identity : GeneratedIdentity) × (ipns_from_secret toy_doc_crates toy_hex
        toy_peers secret
      ≡ ok ipns)
    × (validate_identifier toy_cids ipns ≡ ok tt)
    × (generate_identity_from_secret toy_doc_crates toy_hex toy_peers secret
          (codes "f1")
          (codes "f1")
          secret
          secret
          now
        ≡ ok identity)
    × IsComplete toy_msg_crates toy_hex ipns secret secret identity
generate_identity_from_secret-IsComplete_example =
    generate_identity_from_secret-IsComplete toy_msg_crates toy_hex toy_peers secret secret secret
      peer (codes "f1") (codes "f1") now refl is_fragment is_fragment is_timed (λ d. (d.id, refl))

abbrev Files : Type 0
Files = List (Str × Bytes)

abbrev no_text : Str
no_text = []

abbrev write : Files → Str → Bytes → Result Str Files
write disk path b = ok ((path, b) ∷ disk)

read-write :
    (disk : Files) (path : Str) (b : Bytes) {after : Files}
    → write disk path b ≡ ok after
    → (is_some (get str_eq path after) ≡ true) × (ok_or (get str_eq path after) no_text ≡ ok b)
read-write disk path b h = ground (arith, h, str_eq_refl path)

abbrev toy_files : FileLib
toy_files = record {
  Disk = Files;
  exists = λ disk path. is_some (get str_eq path disk);
  read = λ disk path. ok_or (get str_eq path disk) no_text;
  create_dir_all = λ disk dir. ok disk;
  write = write;
  set_permissions = λ disk path. disk;
  parent = λ path. none;
  read-write = read-write;
  read-set_permissions = λ disk path. (refl, refl);
}

abbrev path : Str
path = codes "key"

abbrev key : Bytes
key = pad 32 secret

is_generated : generate_secret_key_file toy_files path key [] ≡ ok (key, (path, key) ∷ [])
unfolding generate_secret_key_file
is_generated = refl

load-generate_secret_key_file_example :
    (load_secret_key_bytes toy_files path ((path, key) ∷ []) ≡ ok (some key))
    × (generate_secret_key_file toy_files path secret ((path, key) ∷ [])
        ≡ err (secret_key (codes "secret key already exists at key")))
load-generate_secret_key_file_example =
    load-generate_secret_key_file toy_files path key secret key [] ((path, key) ∷ []) refl
      is_generated
