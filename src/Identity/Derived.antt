-- ===== src/Identity/Derived.antt =====
-- Identities whose identifier is derived from a secret, in src/identity.rs.
use rust_ma_core.Common.{Str, Bytes, true, str_eq_refl, some, ok, ◌≡◌, refl}
use rust_ma_core.Did
use rust_ma_core.Did.{Did, validate_identifier, validate_fragment}
use rust_ma_core.Doc.Types.{Document}
use rust_ma_core.Doc.Proving.{is_valid_rfc3339_utc}
use rust_ma_core.Msg.Crates.{MsgCrates}
use rust_ma_core.Identity.{
  GeneratedIdentity, HexLib, PeerLib, build_identity, ipns_from_secret,
  generate_identity_from_secret,
}
use rust_ma_core.Identity.Complete.{IsComplete, build_identity_from_keys-IsComplete}

module _ (crates : MsgCrates) (hex : HexLib) (peers : PeerLib crates.doc.cids) where
  open crates use {doc}
  open doc use {cids}
  open cids use {Multihash, base36_encode, to_bytes}
  open peers use {keypair_multihash, new_v1, new_v1_parts, text_round_trip, text_nonempty, peer_key}

  pub derived_valid :
      (secret : Bytes) (h : Multihash)
      → keypair_multihash secret ≡ some h
      → validate_identifier cids (base36_encode (to_bytes (new_v1 Did.libp2p_key_codec h))) ≡ ok tt
  unfolding validate_identifier
  derived_valid secret h made =
      let (digest, key, read, decoded, is_key) = peer_key secret h made in
      let (v1, codec, hash) = new_v1_parts secret h made in
      rw
        (
          validate_identifier,
          text_nonempty secret h made,
          text_round_trip secret h made,
          v1,
          codec,
          str_eq_refl (base36_encode (to_bytes (new_v1 Did.libp2p_key_codec h))),
          hash,
          read,
          decoded,
          is_key,
        )
        refl

  -- The identifier that a secret determines is a valid one, and the identity that is generated from
  -- the secret is complete: for every secret that is a key, valid generated fragments, any two
  -- random secrets and a clock that writes a valid time, the generation succeeds as long as
  -- documents can be serialised, and its document validates, verifies and publishes both keys.
  pub generate_identity_from_secret-IsComplete :
      (secret sign_secret enc_secret : Bytes) (h : Multihash) (sign_fragment enc_fragment now : Str)
      → keypair_multihash secret ≡ some h
      → validate_fragment sign_fragment ≡ ok tt
      → validate_fragment enc_fragment ≡ ok tt
      → is_valid_rfc3339_utc doc now ≡ true
      → ((d : Document) → (b : Bytes) × (doc.to_vec d ≡ ok b))
      → (ipns : Str) × (identity : GeneratedIdentity) × (ipns_from_secret doc hex peers secret
          ≡ ok ipns)
        × (validate_identifier cids ipns ≡ ok tt)
        × (generate_identity_from_secret doc hex peers secret sign_fragment enc_fragment sign_secret
              enc_secret now
            ≡ ok identity)
        × IsComplete crates hex ipns sign_secret enc_secret identity
  unfolding ipns_from_secret generate_identity_from_secret build_identity Did.new_url
  generate_identity_from_secret-IsComplete secret sign_secret enc_secret h sign_fragment
        enc_fragment now made sign_ok enc_ok timed serializes =
      let ipns : Str = base36_encode (to_bytes (new_v1 Did.libp2p_key_codec h)) in
      let valid = derived_valid secret h made in
      let sign_url : Did = record { ipns = ipns; fragment = some sign_fragment } in
      let enc_url : Did = record { ipns = ipns; fragment = some enc_fragment } in
      let (b, identity, built, complete, same) =
        build_identity_from_keys-IsComplete crates hex ipns sign_url sign_secret enc_secret now
          enc_url valid timed serializes in
      (ipns, identity, rw made refl, valid, rw (made, valid, sign_ok, enc_ok) built, complete)
