-- ===== src/Did/Tests.antt =====
-- Runs of src/did.rs over the toy crates, and its theorems at concrete texts.
use rust_ma_core.Common.{codes, some, [], ok, err, ◌≡◌, refl, ◌↔◌}
use rust_ma_core.Error.{
  invalid_fragment, invalid_identifier, missing_identifier, empty_did, invalid_did_prefix,
}
use rust_ma_core.External.Cids.{toy_cids}
use rust_ma_core.Did.{Did, id, parse, validate_identifier, validate_fragment}
use rust_ma_core.Did.Parse.{IsValid, parse_iff}

abbrev lobby : Did
lobby = record { ipns = codes "k51qzi"; fragment = some (codes "lobby") }

parse_results :
    (parse toy_cids (codes "did:ma:k51qzi#lobby") ≡ ok (codes "k51qzi", some (codes "lobby")))
    × (parse toy_cids [] ≡ err empty_did)
    × (parse toy_cids (codes "did:key:x") ≡ err invalid_did_prefix)
    × (parse toy_cids (codes "did:ma:") ≡ err missing_identifier)
    × (parse toy_cids (codes "did:ma:#x") ≡ err missing_identifier)
    × (parse toy_cids (codes "did:ma:a b") ≡ err invalid_identifier)
    × (parse toy_cids (codes "did:ma:a#b.c") ≡ err (invalid_fragment (codes "b.c")))
unfolding parse validate_identifier validate_fragment
parse_results = (refl, refl, refl, refl, refl, refl, refl)

parse_iff_example :
    (parse toy_cids (codes "did:ma:k51qzi#lobby") ≡ ok (lobby.ipns, lobby.fragment))
    ↔ ((codes "did:ma:k51qzi#lobby" ≡ id lobby) × IsValid toy_cids lobby)
parse_iff_example = parse_iff toy_cids (codes "did:ma:k51qzi#lobby") lobby
