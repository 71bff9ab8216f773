-- ===== src/Kubo/Tests.antt =====
-- The theorems on src/kubo/kubo.rs at a node that refuses every publication but knows the name.
use rust_ma_core.Common.{
  Str, Bool, true, false, codes, none, [], ok, err, Result, ◌∷◌, ◌*◌, ◌≡◌, refl, arith,
}
use rust_ma_core.Kubo.{History, Node, IpnsPublishOptions, milli, name_publish_with_retry}
use rust_ma_core.Kubo.Confirmed.{IsPublication, name_publish_with_retry_lem}

abbrev pub options : IpnsPublishOptions
options = record {
  timeout = 120000 * milli;
  allow_offline = true;
  lifetime = codes "8760h";
  ttl = none;
  resolve = false;
  quieter = true;
}

-- A name resolves once something was asked twice before.
abbrev pub resolves : Str → Bool → History → Result Str Str
resolves path recursive (a ∷ b ∷ h) = ok (codes "/ipfs/bafy")
resolves path recursive h = err (codes "no name")

abbrev pub slow : Node
slow = record {
  version = λ h. ok (codes "1", []);
  name_publish = λ params h. err (codes "timeout");
  name_resolve = resolves;
  remote_pin_add_named = λ service cid name h. ok tt;
  list_keys = λ h. ok [];
  import_key = λ name bytes h. ok (record { name = (name, []); id = (codes "k51", []) });
  dag_put_cbor = λ bytes pin h. ok (codes "bafy");
  pin_add_named = λ cid name h. ok tt;
}

name_publish_with_retry_lem_example :
    IsPublication slow (codes "ma-x") (codes "k51") (codes "bafy") options (30000 * milli) 2 [] (
      name_publish_with_retry slow
        (codes "ma-x")
        (codes "k51")
        (codes "bafy")
        options
        3
        (1000 * milli)
        [])
name_publish_with_retry_lem_example =
    name_publish_with_retry_lem slow (codes "ma-x") (codes "k51") (codes "bafy") options
      (30000 * milli) 2 (1000 * milli) [] (omega arith) (omega arith)

-- The second attempt is accepted, after one delay of a second.
second_works :
    (name_publish_with_retry slow
      (codes "ma-x")
      (codes "k51")
      (codes "bafy")
      options
      3
      (1000 * milli)
      []).1
    ≡ ok (codes "/ipfs/bafy")
unfolding name_publish_with_retry
second_works = refl
