-- ===== src/Msg/Crates.antt =====
-- The crates that src/msg.rs calls: those of src/doc.rs, and `ciborium` on its three types. The
-- concrete instance writes a text as its length and its characters.
use rust_ma_core.Common.{
  ℕ, suc, zero, Str, Bytes, length, Option, none, some, [], ◌∷◌, ◌++◌, ◌≡◌, refl, arith, Result, ok,
  ok_or, ◌>>=◌,
}
use rust_ma_core.Doc.Crates.{DocCrates, toy_doc_crates}
use rust_ma_core.Msg.Types.{Headers, Message, Envelope}

-- `ser::into_writer` and `de::from_reader` on a type; the errors are their texts.
pub record CborLib (A : Type 0) : Type 0 where
  pub into_writer : A → Result Str Bytes
  pub from_reader : Bytes → Result Str A
  pub cbor_round_trip : (a : A) {b : Bytes} → into_writer a ≡ ok b → from_reader b ≡ ok a

pub record MsgCrates : Type 1 where
  pub doc : DocCrates
  pub headers_cbor : CborLib Headers
  pub message_cbor : CborLib Message
  pub envelope_cbor : CborLib Envelope

-- A text between its length and the rest.
abbrev pub write : Str → Bytes → Bytes
write s rest = length s ∷ (s ++ rest)

abbrev pub read_rest : ℕ → Bytes → Option (Str × Bytes)
read_rest zero b = some ([], b)
read_rest (suc n) [] = none
read_rest (suc n) (c ∷ b) = elim (read_rest n b) [
  | none ↦ none
  | some (s, rest) ↦ some (c ∷ s, rest)
]

abbrev pub read : Bytes → Option (Str × Bytes)
read [] = none
read (n ∷ b) = read_rest n b

abbrev pub read_number : Bytes → Option (ℕ × Bytes)
read_number [] = none
read_number (n ∷ b) = some (n, b)

abbrev pub write_option : Option Str → Bytes → Bytes
write_option none rest = 0 ∷ rest
write_option (some s) rest = 1 ∷ write s rest

abbrev pub read_option : Bytes → Option (Option Str × Bytes)
read_option [] = none
read_option (zero ∷ b) = some (none, b)
read_option (suc n ∷ b) = elim (read b) [ none ↦ none | some (s, rest) ↦ some (some s, rest) ]

pub read_rest-append : (s rest : Str) → read_rest (length s) (s ++ rest) ≡ some (s, rest)
read_rest-append [] rest = refl
read_rest-append (c ∷ s) rest = rw (read_rest-append s rest) refl

read_option-write_option :
    (o : Option Str) (rest : Bytes) → read_option (write_option o rest) ≡ some (o, rest)
read_option-write_option none rest = refl
read_option-write_option (some s) rest = rw (read_rest-append s rest, read_option) refl

-- A part of a value is read, or the bytes are refused.
abbrev pub part : {A : Type 0} → Option A → Result Str A
part o = ok_or o []

abbrev pub write_headers : Headers → Bytes
write_headers h = write h.id (
    write h.protocol (
      write h.message_type (
        write h.from (
          write h.to (
            h.created_at
            ∷ h.exp
            ∷ write h.content_type
                (write_option h.reply_to (write h.content_hash (write h.signature []))))))))

abbrev pub read_headers : Bytes → Result Str Headers
read_headers b = do
  (id, b1) ← part (read b)
  (protocol, b2) ← part (read b1)
  (message_type, b3) ← part (read b2)
  (from, b4) ← part (read b3)
  (to, b5) ← part (read b4)
  (created_at, b6) ← part (read_number b5)
  (exp, b7) ← part (read_number b6)
  (content_type, b8) ← part (read b7)
  (reply_to, b9) ← part (read_option b8)
  (content_hash, b10) ← part (read b9)
  (signature, b11) ← part (read b10)
  ok (record {
    id = id;
    protocol = protocol;
    message_type = message_type;
    from = from;
    to = to;
    created_at = created_at;
    exp = exp;
    content_type = content_type;
    reply_to = reply_to;
    content_hash = content_hash;
    signature = signature;
  })

pub read_headers-write_headers : (h : Headers) → read_headers (write_headers h) ≡ ok h
read_headers-write_headers h =
    rw
      (
        read_rest-append h.id,
        read_rest-append h.protocol,
        read_rest-append h.message_type,
        read_rest-append h.from,
        read_rest-append h.to,
        read_rest-append h.content_type,
        read_option-write_option h.reply_to,
        read_rest-append h.content_hash,
        read_rest-append h.signature,
      )
      refl

abbrev pub headers_of : Message → Headers
headers_of m = record {
  id = m.id;
  protocol = m.protocol;
  message_type = m.message_type;
  from = m.from;
  to = m.to;
  created_at = m.created_at;
  exp = m.exp;
  content_type = m.content_type;
  reply_to = m.reply_to;
  content_hash = m.content;
  signature = m.signature;
}

abbrev pub message_of : Headers → Message
message_of h = record {
  id = h.id;
  protocol = h.protocol;
  message_type = h.message_type;
  from = h.from;
  to = h.to;
  created_at = h.created_at;
  exp = h.exp;
  content_type = h.content_type;
  reply_to = h.reply_to;
  content = h.content_hash;
  signature = h.signature;
}

abbrev pub read_message : Bytes → Result Str Message
read_message b = do h ← read_headers b; ok (message_of h)

abbrev pub write_envelope : Envelope → Bytes
write_envelope e = write e.ephemeral_key (write e.encrypted_content (write e.encrypted_headers []))

abbrev pub read_envelope : Bytes → Result Str Envelope
read_envelope b = do
  (key, b1) ← part (read b)
  (content, b2) ← part (read b1)
  (headers, b3) ← part (read b2)
  ok (record { ephemeral_key = key; encrypted_content = content; encrypted_headers = headers })

pub read_envelope-write_envelope : (e : Envelope) → read_envelope (write_envelope e) ≡ ok e
read_envelope-write_envelope e =
    rw
      (
        read_rest-append e.ephemeral_key,
        read_rest-append e.encrypted_content,
        read_rest-append e.encrypted_headers,
      )
      refl

abbrev pub writer : {A : Type 0} → (A → Bytes) → A → Result Str Bytes
writer w a = ok (w a)

-- What is read from what was written is the value.
pub written :
    {A : Type 0} (w : A → Bytes) (r : Bytes → Result Str A)
    → ((a : A) → r (w a) ≡ ok a)
    → (a : A) {b : Bytes} → writer w a ≡ ok b
    → r b ≡ ok a
written w r law a {b = b} h = ground (arith, law a)

abbrev pub toy_msg_crates : MsgCrates
toy_msg_crates = record {
  doc = toy_doc_crates;
  headers_cbor = record {
    into_writer = writer write_headers;
    from_reader = read_headers;
    cbor_round_trip = written write_headers read_headers read_headers-write_headers;
  };
  message_cbor = record {
    into_writer = writer (λ m. write_headers (headers_of m));
    from_reader = read_message;
    cbor_round_trip =
        written (λ m. write_headers (headers_of m)) read_message
          (λ m. rw (read_headers-write_headers (headers_of m)) refl);
  };
  envelope_cbor = record {
    into_writer = writer write_envelope;
    from_reader = read_envelope;
    cbor_round_trip = written write_envelope read_envelope read_envelope-write_envelope;
  };
}
