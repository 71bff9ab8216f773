-- ===== src/Lib.antt =====
-- Verification of ma-core (Rust): identifiers, documents, signed messages and their queues.
--
-- The program gives every actor a `did:ma:` identifier (src/did.rs), a document that publishes the
-- actor's keys and services (src/doc.rs, src/key.rs), and signed messages that are sealed for a
-- recipient in envelopes (src/msg.rs). An identity comes from secret keys (src/identity.rs), which a
-- bundle keeps encrypted (src/config/secrets.rs). An endpoint keeps the actor's services and its
-- connections to other endpoints, and decodes the streams that come in (src/endpoint.rs,
-- src/iroh/endpoint.rs). Received messages wait in inboxes, which are bounded queues
-- with an expiry per message (src/inbox.rs, src/ttl_queue.rs); access control lists decide what a
-- caller may do (src/acl/mod.rs); transport strings of a document name the endpoints that a message
-- is sent to (src/transport.rs), and an outbox sends it (src/outbox.rs). A background worker removes
-- superseded pins of published documents (src/kubo/pinning.rs).
--
-- The files and what they model:
--   Common       text, lists, maps, options, results and character classes that all parts share
--   Error        the error enums of src/error.rs
--   External     the crates that the code calls, as records of functions and laws, each with a concrete
--                instance: identifiers and keys (Cids), varints and bases (Multi), cryptography (Crypto)
--   TtlQueue     src/ttl_queue.rs: the queue as the list of its entries; Bounds, Live and Order hold
--                the proofs
--   Inbox        src/inbox.rs: a handle into a store of queues, as `Arc<Mutex<_>>` is; Frame
--   Acl          src/acl/mod.rs: Sets (`BTreeSet`), Entry, Decision, Keys
--   Did          src/did.rs: Parse, Forms
--   Multiformat  src/multiformat.rs: RoundTrip
--   Doc          src/doc.rs, src/key.rs, and `parse_document_bytes` of src/ipfs/resolver.rs: Types,
--                Crates, Method, Operations, Proving, Extension; Methods, Validity, Signing
--   Msg          src/msg.rs: Types, Crates, Check, Create, Replay, Seal; Fresh, Window, Signed,
--                Opened, Guarded
--   Outbox       src/outbox.rs: sending through a wire; Sent
--   Transport    src/transport.rs: Strings, Services
--   Inbound      src/iroh/endpoint.rs: the decoding and delivery of inbound streams under one shared
--                replay guard; Accepted, Once, Delivered
--   Endpoint     src/endpoint.rs, src/iroh/endpoint.rs: services and router (Registry, History), the
--                sending side (Outbound; Sending, Broadcast), the cache of connections as a machine of
--                tasks (Connections; Exclusive, Sharing), the accept loop of a dialled connection
--                (Replies)
--   Identity     src/identity.rs: identities from keys and secrets, the key file (KeyFile); Generated,
--                Complete, Derived
--   Secrets      src/config/secrets.rs: the bundle and its encrypted form, the passphrase (Passphrase),
--                what a bundle gives (Documents); RoundTrip, Sized, Identities
--   Publish      src/ipfs/publish.rs: key name parts, publish and store requests, the publication
--                through a node (Node) and its replication (Replication); Names, Requests, Published
--   Kubo         src/kubo/kubo.rs: a node as the answers to a history of calls, the retry loops, the
--                publication of names, the keys (Keys); Retry, Confirmed
--   Pinning      src/kubo/pinning.rs: the cleanup scheduler and its worker as events of a state machine,
--                the passes over a node's pins (Node); Keys, Wake, Passes
--
-- The parts meet as in the source: a document is validated with the identifiers of Did and the texts of
-- Multiformat; a message is verified with the keys that Doc finds; an envelope is opened with both and
-- then asked of the replay guard. The functions have the names of the source. A method's mutated
-- receiver is an argument and a result. `Result` is a type with `do` blocks for the `?` operator. Each
-- call of the clock, each random secret, nonce and generated id is an argument, one for each call, in
-- the order of the calls. Text is the list of its code points; bytes are natural numbers. Machine
-- integers are native numbers; where the source adds seconds the sum wraps at 64 bits, as in a build
-- without overflow checks. All loops are structural recursion, but for the
-- generation of a passphrase: the buffers that the random generator fills are its fuel, and enough of
-- them hold 43 bytes that are not rejected.
--
-- Not modelled: the QUIC transport of iroh (binding, opening and writing streams), the HTTP requests to
-- a Kubo node, the settings and their files, the clearing of secret memory, logging, and most texts of
-- the errors. The laws about the crates say what
-- is made with a key is accepted with its counterpart, that encoders and decoders agree, and the forms
-- of lengths and prefixes; none says that a signature cannot be forged.
pub mod Acl
pub mod Common
pub mod Did
pub mod Doc
pub mod Endpoint
pub mod Error
pub mod External
pub mod Identity
pub mod Inbound
pub mod Inbox
pub mod Kubo
pub mod Msg
pub mod Multiformat
pub mod Outbox
pub mod Pinning
pub mod Publish
pub mod Secrets
pub mod Transport
pub mod TtlQueue
