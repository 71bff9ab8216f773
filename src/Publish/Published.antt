-- ===== src/Publish/Published.antt =====
-- What a publication of src/ipfs/publish.rs has done when it succeeds.
use rust_ma_core.Common.{
  ℕ, zero, suc, ◌+◌, ◌*◌, Str, Bytes, Bool, true, false, str_eq, str_eq_iff, trim, Option, none,
  some, List, ◌∷◌, Result, ok, err, map_err-eq-ok, ensure, Bool-cases, inl, inr, ◌⊎◌, ◌≡◌, refl, ap,
  sym, subst, arith,
}
use rust_ma_core.Did.{Did}
use rust_ma_core.Doc.Crates.{DocCrates}
use rust_ma_core.Identity.{HexLib}
use rust_ma_core.Pinning.{Scheduler}
use rust_ma_core.Kubo.{
  History, Node, IpnsPublishOptions, asked_dag_put, refused, milli, with_retry,
  name_publish_with_retry,
}
use rust_ma_core.Kubo.Keys.{KuboKey, list_keys, import_key, find_key}
use rust_ma_core.Kubo.Confirmed.{IsConfirmed, name_publish_with_retry-IsConfirmed}
use rust_ma_core.Publish.Replication.{
  DidDocumentPublishOptions, RemotePinStatus, pin_name_of, add_name,
}
use rust_ma_core.Publish.Node.{
  PublishedDidDocument, PublishFailure, failed, next, prepare, put_document, pin_document,
  protobuf_key, check_imported, use_key, publish_did_document_to_kubo,
}

next-eq-ok :
    {A B E F : Type 0} (failing : F → E) (r : History × Result F A)
    (rest : A → History → History × Result E B) {end : History} {b : B}
    → next failing r rest ≡ (end, ok b)
    → (a : A) × (h : History) × (r ≡ (h, ok a)) × (rest a h ≡ (end, ok b))
next-eq-ok failing (h, ok a) rest e = (a, h, refl, e)
next-eq-ok failing (h, err f) rest e = absurd (ground (arith, ap (λ r. r.1) e))

ensure-eq-ok : {E : Type 0} (a b : Str) (e : E) → ensure (str_eq a b) e ≡ ok tt → a ≡ b
ensure-eq-ok a b e h = elim (Bool-cases (str_eq a b)) [
  | inl same ↦ (str_eq_iff a b).0 same
  | inr other ↦ let never = rw other at h in absurd (ground (arith, never))
]

module _ (node : Node) where
  -- The node has a key of this name for this identity, or was given one.
  abbrev pub HasKey : Str → Str → Type 0
  HasKey key_name ipns_id =
      (k : KuboKey) × (trim k.id ≡ ipns_id)
      × (((h : History) × (keys : List KuboKey) × ((list_keys node h).1 ≡ ok keys)
            × (find_key key_name keys ≡ some k))
          ⊎ ((h : History) × (bytes : Bytes) × ((import_key node key_name bytes h).1 ≡ ok k)))

  confirmed :
      (key_name ipns_id cid value : Str) (options : IpnsPublishOptions) (attempts initial : ℕ)
      (h : History)
      → (name_publish_with_retry node key_name ipns_id cid options attempts initial h).1 ≡ ok value
      → (before : History) × IsConfirmed node key_name ipns_id cid options value before
  unfolding name_publish_with_retry with_retry
  confirmed key_name ipns_id cid value options zero initial h e = absurd (ground (arith, e))
  confirmed key_name ipns_id cid value options (suc left) initial h e =
      name_publish_with_retry-IsConfirmed node key_name ipns_id cid options
        (initial + 30000 * milli) left initial h value (omega arith) (omega arith) e

  module _ (crates : DocCrates) (hex : HexLib) (keypair_protobuf : Bytes → Result Str Bytes) where
    -- What stands behind a published document.
    pub record IsPublished (did_document : Bytes) (options : DidDocumentPublishOptions)
        (p : PublishedDidDocument) : Type 0 where
      pub did : Did
      pub prepared : prepare crates hex did_document options ≡ ok (did, p.key_name)
      pub identity : p.ipns_id ≡ did.ipns
      pub key : HasKey p.key_name p.ipns_id
      pub put_at : History
      pub put : node.dag_put_cbor did_document false put_at ≡ ok p.cid
      pub pinned :
          node.pin_add_named p.cid
            (add_name options.overwrite (pin_name_of p.key_name options.remote_pin))
            (asked_dag_put did_document false ∷ put_at)
          ≡ ok tt
      pub value : Str
      pub named_at : History
      pub named : IsConfirmed node p.key_name p.ipns_id p.cid options.ipns value named_at

    use_key-HasKey :
        (key_name ipns_id : Str) (private_key : Bytes) (keys : List KuboKey)
        (found : Option KuboKey) (h0 h end : History)
        → (list_keys node h0).1 ≡ ok keys
        → find_key key_name keys ≡ found
        → use_key crates hex keypair_protobuf node key_name ipns_id private_key found h
          ≡ (end, ok tt)
        → HasKey key_name ipns_id
    unfolding use_key check_imported
    use_key-HasKey key_name ipns_id private_key keys (some k) h0 h end listed is_found e =
        (k, ensure-eq-ok (trim k.id) ipns_id _ (ap (λ r. r.1) e), inl (h0, keys, listed, is_found))
    use_key-HasKey key_name ipns_id private_key keys none h0 h end listed is_found e =
        let (bytes, h1, p1, e1) =
          next-eq-ok (λ f. f) (h, protobuf_key crates hex keypair_protobuf node private_key) _ e in
        let (k, h2, p2, e2) = next-eq-ok failed (import_key node key_name bytes h1) _ e1 in
        (
          k,
          ensure-eq-ok (trim k.id) ipns_id _ (ap (λ r. r.1) e2),
          inr (h1, bytes, ap (λ r. r.1) p2),
        )

    -- The facts of the steps, at the history in front of each.
    assembled :
        (did_document private_key : Bytes) (options : DidDocumentPublishOptions) (did : Did)
        (key_name cid value : Str) (keys : List KuboKey) (status : Option RemotePinStatus)
        (scheduled : Bool) (h h0 h1 h2 h3 h4 h5 : History)
        → ◌≡◌ {A = History × Result PublishFailure (Did × Str)}
            (h, prepare crates hex did_document options)
            (h0, ok (did, key_name))
        → list_keys node h0 ≡ (h1, ok keys)
        → use_key crates hex keypair_protobuf node key_name did.ipns private_key
            (find_key key_name keys)
            h1
          ≡ (h2, ok tt)
        → put_document node did_document h2 ≡ (h3, ok cid)
        → pin_document node cid
            (add_name options.overwrite (pin_name_of key_name options.remote_pin))
            h3
          ≡ (h4, ok tt)
        → name_publish_with_retry node key_name did.ipns cid options.ipns options.attempts
            options.initial_backoff h4
          ≡ (h5, ok value)
        → IsPublished did_document options (record {
          cid = cid;
          key_name = key_name;
          ipns_id = did.ipns;
          local_pinned = true;
          cleanup_scheduled = scheduled;
          remote_pin = status;
        })
    unfolding put_document pin_document
    assembled did_document private_key options did key_name cid value keys status scheduled h h0 h1
          h2 h3 h4 h5 p0 p1 p2 p3 p4 p5 =
        let name : Str = add_name options.overwrite (pin_name_of key_name options.remote_pin) in
        let (before, sure) =
          confirmed key_name did.ipns cid value options.ipns options.attempts
            options.initial_backoff h4 (ap (λ r. r.1) p5) in
        record {
          did = did;
          prepared = ap (λ r. r.1) p0;
          identity = refl;
          key =
              use_key-HasKey key_name did.ipns private_key keys (find_key key_name keys) h0 h1 h2
                (ap (λ r. r.1) p1) refl p2;
          put_at = h2;
          put = map_err-eq-ok refused _ (ap (λ r. r.1) p3);
          pinned =
              subst (λ at. node.pin_add_named cid name at ≡ ok tt) (sym (ap (λ r. r.0) p3))
                (map_err-eq-ok refused (node.pin_add_named cid name h3) (ap (λ r. r.1) p4));
          value = value;
          named_at = before;
          named = sure;
        }

    value_or :
        PublishedDidDocument
        → Result PublishFailure (PublishedDidDocument × Scheduler)
        → PublishedDidDocument
    value_or p (ok (q, after)) = q
    value_or p (err e) = p

    -- A publication that succeeds published a document that is read with an identifier, under a key
    -- of the node that has this identity; the node had stored and pinned the bytes of the document
    -- before, and the name is confirmed to lead to them.
    pub publish_did_document_to_kubo-IsPublished :
        (kubo_url : Str) (sent : Bool) (cleanup : Scheduler) (did_document private_key : Bytes)
        (options : DidDocumentPublishOptions) (h end : History) (p : PublishedDidDocument)
        (after : Scheduler)
        → publish_did_document_to_kubo crates hex keypair_protobuf node kubo_url sent cleanup
            did_document private_key options h
          ≡ (end, ok (p, after))
        → IsPublished did_document options p
    unfolding publish_did_document_to_kubo value_or
    publish_did_document_to_kubo-IsPublished kubo_url sent cleanup did_document private_key options
          h end p after e =
        let (prepared, h0, p0, e0) =
          next-eq-ok (λ f. f) (h, prepare crates hex did_document options) _ e in
        let did : Did = prepared.0 in
        let key_name : Str = prepared.1 in
        let pin_name : Str = pin_name_of key_name options.remote_pin in
        let (keys, h1, p1, e1) = next-eq-ok failed (list_keys node h0) _ e0 in
        let (used, h2, p2, e2) =
          next-eq-ok (λ f. f)
            (use_key crates hex keypair_protobuf node key_name did.ipns private_key
              (find_key key_name keys) h1)
            _ e1 in
        let (cid, h3, p3, e3) = next-eq-ok failed (put_document node did_document h2) _ e2 in
        let (done, h4, p4, e4) =
          next-eq-ok failed (pin_document node cid (add_name options.overwrite pin_name) h3) _ e3 in
        let (value, h5, p5, e5) =
          next-eq-ok failed
            (name_publish_with_retry node key_name did.ipns cid options.ipns options.attempts
              options.initial_backoff h4)
            _ e4 in
        subst (λ q. IsPublished did_document options q) (ap (λ r. value_or p r.1) e5)
          (assembled did_document private_key options did key_name cid value keys _ _ h h0 h1 h2 h3
            h4 h5 p0 p1 p2 p3 p4 p5)
