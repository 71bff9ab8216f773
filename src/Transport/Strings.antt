-- ===== src/Transport/Strings.antt =====
-- Printing and parsing of transport strings of src/transport.rs.
use rust_ma_core.Common.{
  ℕ, Str, true, false, all, is_empty, is_ascii_hexdigit, to_ascii_lowercase, is_whitespace,
  cons_trimmed, trim, trim_start, trim_end, trim_start_matches, find-Free, find-append,
  split-append, split_of_Free, append-nil, strip_prefix, drop, length, map, Free, none, some, [],
  ◌∷◌, ◌++◌, ◌≡◌, ◌≢◌, ◌⊎◌, refl, ap, ◌∙◌, arith, Bool-cases, inl, inr, if◌then◌else◌,
}
use rust_ma_core.Transport.{
  iroh_prefix, normalize_address, normalize_endpoint_id, first_segment, endpoint_of_rest,
  endpoint_id_from_transport, protocol_of_rest, protocol_from_transport, normalize_protocol,
  transport_string,
}

-- An endpoint id: 64 hexadecimal digits.
abbrev pub IsEndpointId : Str → Type 0
IsEndpointId id = (length id ≡ 64) × (all is_ascii_hexdigit id ≡ true)

cons_trimmed-cons : (c : ℕ) (t s : Str) → cons_trimmed c t ≡ c ∷ s → t ≡ s
cons_trimmed-cons c [] s h = ground (arith, Bool-cases (is_whitespace c))
cons_trimmed-cons c (d ∷ t) s h = ground arith

trim_end-cons_trimmed :
    (c : ℕ) (t : Str) → trim_end t ≡ t → trim_end (cons_trimmed c t) ≡ cons_trimmed c t
unfolding trim_end
trim_end-cons_trimmed c [] h = ground (arith, Bool-cases (is_whitespace c))
trim_end-cons_trimmed c (d ∷ t) h = ap (cons_trimmed c) h

trim_end_idem : (s : Str) → trim_end (trim_end s) ≡ trim_end s
unfolding trim_end
trim_end_idem [] = refl
trim_end_idem (c ∷ s) = trim_end-cons_trimmed c (trim_end s) (trim_end_idem s)

append-nonempty : (a : Str) (c : ℕ) (b : Str) → is_empty (a ++ c ∷ b) ≡ false
append-nonempty [] c b = refl
append-nonempty (x ∷ a) c b = refl

cons_trimmed-nonempty : (c : ℕ) (t : Str) → is_empty t ≡ false → cons_trimmed c t ≡ c ∷ t
cons_trimmed-nonempty c [] h = cc
cons_trimmed-nonempty c (d ∷ t) h = refl

trim_end-append :
    (a : Str) (c : ℕ) (b : Str) → trim_end (c ∷ b) ≡ c ∷ b → trim_end (a ++ c ∷ b) ≡ a ++ c ∷ b
unfolding trim_end
trim_end-append [] c b e = e
trim_end-append (x ∷ a) c b e =
    ap (cons_trimmed x) (trim_end-append a c b e)
    ∙ cons_trimmed-nonempty x (a ++ c ∷ b) (append-nonempty a c b)

trim_end-trim_start_matches :
    (c : ℕ) (s : Str) → trim_end s ≡ s → trim_end (trim_start_matches c s) ≡ trim_start_matches c s
unfolding trim_end trim_start_matches
trim_end-trim_start_matches c [] h = refl
trim_end-trim_start_matches c (x ∷ s) h =
    ground (arith, trim_end-trim_start_matches c s (cons_trimmed-cons x (trim_end s) s h))

trim_start_matches_idem :
    (c : ℕ) (s : Str) → trim_start_matches c (trim_start_matches c s) ≡ trim_start_matches c s
unfolding trim_start_matches
trim_start_matches_idem c [] = refl
trim_start_matches_idem c (x ∷ s) = ground (arith, trim_start_matches_idem c s)

hexdigit-Free : (c : ℕ) → is_ascii_hexdigit c ≡ true → (is_whitespace c ≡ false) × (c ≢ b'/')
unfolding is_whitespace
hexdigit-Free c h = ground arith

slash-trim_end : (q : Str) → trim_end q ≡ q → trim_end (b'/' ∷ q) ≡ b'/' ∷ q
unfolding trim_end is_whitespace
slash-trim_end [] h = refl
slash-trim_end (c ∷ q) h = ap (cons_trimmed b'/') h

-- The outcomes of the normalization.
normalize_protocol-cases :
    (p : Str)
    → ((is_empty (trim p) ≡ true) × (normalize_protocol p ≡ []))
      ⊎ ((q : Str) × (is_empty (trim p) ≡ false)
          × (normalize_protocol p ≡ b'/' ∷ q)
          × (trim_end q ≡ q)
          × (trim_start_matches b'/' q ≡ q))
unfolding normalize_protocol trim trim_end
normalize_protocol-cases p = elim (Bool-cases (is_empty (trim p))) [
  | inl e ↦ inl (e, rw e refl)
  | inr e ↦ inr (
    trim_start_matches b'/' (trim p),
    e,
    rw e refl,
    trim_end-trim_start_matches b'/' (trim p) (trim_end_idem (trim_start p)),
    trim_start_matches_idem b'/' (trim p),
  )
]

normalized :
    (q : Str)
    → trim_end q ≡ q
    → trim_start_matches b'/' q ≡ q
    → normalize_protocol (b'/' ∷ q) ≡ b'/' ∷ q
unfolding normalize_protocol is_whitespace trim
normalized q ends starts = rw (slash-trim_end q ends, starts) refl

-- Normalizing a protocol twice changes nothing more.
pub normalize_protocol_idem :
    (p : Str) → normalize_protocol (normalize_protocol p) ≡ normalize_protocol p
unfolding normalize_protocol trim
normalize_protocol_idem p = elim (normalize_protocol-cases p) [
  | inl (e, n) ↦ rw n refl
  | inr (q, e, n, ends, starts) ↦ rw n (normalized q ends starts)
]

hex-trim_end :
    (c : ℕ) (s : Str) → is_ascii_hexdigit c ≡ true → trim_end s ≡ s → trim_end (c ∷ s) ≡ c ∷ s
unfolding trim_end
hex-trim_end c [] h e = rw (hexdigit-Free c h).0 refl
hex-trim_end c (d ∷ s) h e = ap (cons_trimmed c) e

all_hex-trim_end : (id : Str) → all is_ascii_hexdigit id ≡ true → trim_end id ≡ id
unfolding trim_end
all_hex-trim_end [] h = refl
all_hex-trim_end (c ∷ id) h =
    hex-trim_end c id (ground (arith, h)) (all_hex-trim_end id (ground (arith, h)))

all_hex-Free : (id : Str) → all is_ascii_hexdigit id ≡ true → Free b'/' id
all_hex-Free [] h = tt
all_hex-Free (c ∷ id) h = ground (arith, hexdigit-Free c, all_hex-Free id)

drop-prefix : (a b : Str) → drop (length a) (a ++ b) ≡ b
drop-prefix [] b = refl
drop-prefix (c ∷ a) b = drop-prefix a b

-- The text behind the prefix is not empty and has no blanks at its end.
rest-trim_end :
    (c : ℕ) (id p : Str)
    → all is_ascii_hexdigit (c ∷ id) ≡ true
    → trim_end (c ∷ id ++ normalize_protocol p) ≡ c ∷ id ++ normalize_protocol p
rest-trim_end c id p h = elim (normalize_protocol-cases p) [
  | inl (e, n) ↦ rw (n, append-nil id) (all_hex-trim_end (c ∷ id) h)
  | inr (q, e, n, ends, starts) ↦ rw n (trim_end-append (c ∷ id) b'/' q (slash-trim_end q ends))
]

trim-transport_string :
    (c : ℕ) (id p : Str)
    → all is_ascii_hexdigit (c ∷ id) ≡ true
    → trim (transport_string (c ∷ id) p) ≡ iroh_prefix ++ c ∷ id ++ normalize_protocol p
unfolding transport_string trim is_whitespace
trim-transport_string c id p h =
    trim_end-append iroh_prefix c (id ++ normalize_protocol p) (rest-trim_end c id p h)

first_segment-rest : (id p : Str) → Free b'/' id → first_segment (id ++ normalize_protocol p) ≡ id
unfolding first_segment
first_segment-rest id p h = elim (normalize_protocol-cases p) [
  | inl (e, n) ↦ rw (n, append-nil id, first_segment, split_of_Free b'/' id h) refl
  | inr (q, e, n, ends, starts) ↦ rw (n, first_segment, split-append b'/' id q h) refl
]

hex-trim : (c : ℕ) (id : Str) → all is_ascii_hexdigit (c ∷ id) ≡ true → trim (c ∷ id) ≡ c ∷ id
unfolding trim
hex-trim c id h = rw (hexdigit-Free c (ground (arith, h))).0 (all_hex-trim_end (c ∷ id) h)

strip_prefix-iroh : (c : ℕ) (id : Str) → c ≢ b'/' → strip_prefix iroh_prefix (c ∷ id) ≡ none
strip_prefix-iroh c id h = ground arith

-- An endpoint id alone is taken as it is, in lower case.
pub normalize_endpoint_id-hex :
    (c : ℕ) (id : Str)
    → IsEndpointId (c ∷ id)
    → normalize_endpoint_id (c ∷ id) ≡ some (map to_ascii_lowercase (c ∷ id))
unfolding normalize_endpoint_id normalize_address
normalize_endpoint_id-hex c id h =
    rw
      (
        normalize_endpoint_id,
        hex-trim c id (h.1),
        strip_prefix-iroh c id (all_hex-Free (c ∷ id) (h.1)).0,
        hex-trim c id (h.1),
        normalize_address,
        h.0,
        h.1,
      )
      refl

protocol-rest :
    (id p : Str)
    → Free b'/' id
    → protocol_of_rest (id ++ normalize_protocol p)
      ≡ (if is_empty (trim p) then none else some (normalize_protocol p))
unfolding protocol_of_rest
protocol-rest id p h = elim (normalize_protocol-cases p) [
  | inl (e, n) ↦ rw (n, e, append-nil id, protocol_of_rest, find-Free b'/' id h) refl
  | inr (q, e, n, ends, starts) ↦
      rw (n, e, protocol_of_rest, find-append b'/' id q h, n, drop-prefix id (b'/' ∷ q)) refl
]

-- The string that is printed for an endpoint and a protocol gives back the endpoint, in lower case,
-- and the protocol, with one slash in front; a blank protocol is not found.
pub parse-transport_string :
    (id p : Str)
    → IsEndpointId id
    → (endpoint_id_from_transport (transport_string id p) ≡ some (map to_ascii_lowercase id))
      × (protocol_from_transport (transport_string id p)
          ≡ (if is_empty (trim p) then none else some (normalize_protocol p)))
unfolding endpoint_id_from_transport endpoint_of_rest protocol_from_transport
parse-transport_string [] p h = absurd (omega arith)
parse-transport_string (c ∷ id) p h =
    let free = all_hex-Free (c ∷ id) (h.1) in
    (
      rw
          (
            endpoint_id_from_transport,
            trim-transport_string c id p (h.1),
            endpoint_of_rest,
            first_segment-rest (c ∷ id) p free,
            hex-trim c id (h.1),
            normalize_endpoint_id-hex c id h,
          )
          refl,
      rw
          (
            protocol_from_transport,
            trim-transport_string c id p (h.1),
            protocol-rest (c ∷ id) p free,
          )
          refl,
    )
