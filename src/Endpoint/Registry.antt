-- ===== src/Endpoint/Registry.antt =====
-- The registry of services of src/iroh/endpoint.rs: protocols, inboxes and router agree.
use rust_ma_core.Common.{
  ℕ, ◌<◌, Str, Bool, true, false, ◌&&◌, ◌||◌, not, is_some, str_eq, str_eq_iff, retain, length,
  length-append, All, All-append, Option, none, some, List, [], ◌∷◌, ◌++◌, ◌≡◌, refl, arith,
  Bool-cases, Option-cases, inl, inr, if◌then◌else◌,
}
use rust_ma_core.Common.Maps.{get, insert, remove, get-insert, get-remove}
use rust_ma_core.TtlQueue
use rust_ma_core.Inbox
use rust_ma_core.Inbox.{Inbox, Store}
use rust_ma_core.Msg.Types.{Message}
use rust_ma_core.Transport.{normalize_protocol}
use rust_ma_core.Endpoint.{
  Inboxes, IrohEndpoint, contains, handlers, start_router, reload_router_if_running, serve,
  list_protocol, service, default_inbox_capacity,
}

abbrev pub distinct : List Str → Bool
distinct [] = true
distinct (p ∷ rest) = not (contains p rest) && distinct rest

-- The router has exactly the handlers of the registered services.
abbrev pub IsServing : Option Inboxes → IrohEndpoint → Type 0
IsServing none e = Unit
IsServing (some running) e = running ≡ handlers e.protocols e.inboxes

-- The inbox that an inbound connection for the protocol reaches.
abbrev pub served : Str → IrohEndpoint → Option Inbox
served p e = elim e.router [ none ↦ none | some running ↦ get str_eq p running ]

abbrev pub IsNormal : Str → Type 0
IsNormal p = normalize_protocol p ≡ p

pub record IsRegistered (e : IrohEndpoint) (store : Store Message) : Type 0 where
  pub distinct_protocols : distinct e.protocols ≡ true
  pub normal : All IsNormal e.protocols
  pub listed : (p : Str) → contains p e.protocols ≡ is_some (get str_eq p e.inboxes)
  pub serving : IsServing e.router e
  pub owned :
      (p : Str) (inbox : Inbox) → get str_eq p e.inboxes ≡ some inbox → inbox.queue < length store
  pub apart :
      (p q : Str) (i j : Inbox)
      → get str_eq p e.inboxes ≡ some i
      → get str_eq q e.inboxes ≡ some j
      → i.queue ≡ j.queue
      → p ≡ q

contains-append_end :
    (q p : Str) (ps : List Str) → contains q (ps ++ p ∷ []) ≡ (contains q ps || str_eq p q)
contains-append_end q p [] = ground arith
contains-append_end q p (x ∷ ps) = ground (arith, contains-append_end q p ps)

contains-retain :
    (q p : Str) (ps : List Str)
    → contains q (retain (λ x. not (str_eq x p)) ps) ≡ (not (str_eq p q) && contains q ps)
contains-retain q p [] = ground arith
contains-retain q p (x ∷ ps) =
    ground (arith, contains-retain q p ps, str_eq_iff x p, str_eq_iff p q, str_eq_iff x q)

distinct-append_end :
    (p : Str) (ps : List Str)
    → distinct ps ≡ true
    → contains p ps ≡ false
    → distinct (ps ++ p ∷ []) ≡ true
distinct-append_end p [] d h = refl
distinct-append_end p (x ∷ ps) d h = ground (
  arith,
  distinct-append_end p ps,
  contains-append_end x p ps,
  str_eq_iff p x,
  str_eq_iff x p,
  d,
  h,
)

distinct-retain :
    (p : Str) (ps : List Str)
    → distinct ps ≡ true
    → distinct (retain (λ x. not (str_eq x p)) ps) ≡ true
distinct-retain p [] d = refl
distinct-retain p (x ∷ ps) d = ground (arith, distinct-retain p ps, contains-retain x p ps, d)

All-retain : (f : Str → Bool) (ps : List Str) → All IsNormal ps → All IsNormal (retain f ps)
All-retain f [] h = tt
All-retain f (x ∷ ps) h = elim (Bool-cases (f x)) [
  | inl keep ↦ rw keep (h.0, All-retain f ps (h.1))
  | inr drop ↦ rw drop (All-retain f ps (h.1))
]

-- The handlers that are registered serve the listed protocols, from the map of inboxes.
pub get-handlers :
    (p : Str) (ps : List Str) (inboxes : Inboxes)
    → get str_eq p (handlers ps inboxes) ≡ (if contains p ps then get str_eq p inboxes else none)
unfolding handlers
get-handlers p [] inboxes = refl
get-handlers p (x ∷ ps) inboxes =
    ground (arith, get-handlers p ps inboxes, str_eq_iff x p, Option-cases (get str_eq x inboxes))

serve_lem :
    (e : IrohEndpoint) → serve e ≡ record e { router = some (handlers e.protocols e.inboxes) }
unfolding serve reload_router_if_running start_router
serve_lem e = elim (Option-cases e.router) [
  | inl stopped ↦ rw (stopped, serve) refl
  | inr (running, found) ↦ rw (found, serve) refl
]

-- The queue that a new service gets.
abbrev pub fresh_queue : TtlQueue.TtlQueue Message
fresh_queue = record { buf = []; capacity = default_inbox_capacity }

abbrev pub new_inbox : Store Message → Inbox
new_inbox store = record { queue = length store }

-- The endpoint with one more service.
abbrev pub registered : Str → IrohEndpoint → Store Message → IrohEndpoint
registered p e store = record e {
  protocols = e.protocols ++ p ∷ [];
  inboxes = insert str_eq p (new_inbox store) e.inboxes;
  router = some (handlers (e.protocols ++ p ∷ []) (insert str_eq p (new_inbox store) e.inboxes));
}

pub service_known :
    (protocol : Str) (e : IrohEndpoint) (store : Store Message) (inbox : Inbox)
    → IsRegistered e store
    → get str_eq (normalize_protocol protocol) e.inboxes ≡ some inbox
    → service protocol e store ≡ some (inbox, e, store)
unfolding service list_protocol
service_known protocol e store inbox v h =
    let known : contains (normalize_protocol protocol) e.protocols ≡ true =
      ground (arith, v.listed (normalize_protocol protocol), h) in
    rw (service, h, known) refl

pub service_new :
    (protocol : Str) (e : IrohEndpoint) (store : Store Message)
    → IsRegistered e store
    → get str_eq (normalize_protocol protocol) e.inboxes ≡ none
    → service protocol e store
      ≡ some (
        new_inbox store,
        registered (normalize_protocol protocol) e store,
        store ++ fresh_queue ∷ [],
      )
unfolding service list_protocol Inbox.new TtlQueue.new
service_new protocol e store v h =
    let unknown : contains (normalize_protocol protocol) e.protocols ≡ false =
      ground (arith, v.listed (normalize_protocol protocol), h) in
    rw
      (
        service,
        h,
        unknown,
        serve_lem (record e {
          protocols = e.protocols ++ normalize_protocol protocol ∷ [];
          inboxes = insert str_eq (normalize_protocol protocol) (new_inbox store) e.inboxes;
        }),
      )
      refl

pub registered-IsRegistered :
    (p : Str) (e : IrohEndpoint) (store : Store Message)
    → IsNormal p
    → IsRegistered e store
    → get str_eq p e.inboxes ≡ none
    → IsRegistered (registered p e store) (store ++ fresh_queue ∷ [])
registered-IsRegistered p e store n v h = record {
  distinct_protocols =
      distinct-append_end p e.protocols v.distinct_protocols (ground (arith, v.listed p, h));
  normal = All-append IsNormal e.protocols (p ∷ []) v.normal (n, tt);
  listed = λ q. ground (
    arith,
    contains-append_end q p e.protocols,
    get-insert str_eq str_eq_iff p q (new_inbox store) e.inboxes,
    v.listed q,
    Bool-cases (str_eq p q),
  );
  serving = refl;
  owned = λ q i found. ground (
    arith,
    get-insert str_eq str_eq_iff p q (new_inbox store) e.inboxes,
    length-append store (fresh_queue ∷ []),
    v.owned q i,
    found,
  );
  apart = λ q r i j at_q at_r same. ground (
    arith,
    get-insert str_eq str_eq_iff p q (new_inbox store) e.inboxes,
    get-insert str_eq str_eq_iff p r (new_inbox store) e.inboxes,
    str_eq_iff p q,
    str_eq_iff p r,
    v.owned q i,
    v.owned r j,
    v.apart q r i j,
    at_q,
    at_r,
    same,
  );
}

pub removed-IsRegistered :
    (p : Str) (e : IrohEndpoint) (store : Store Message)
    → IsRegistered e store
    → IsRegistered
        (record e {
          protocols = retain (λ q. not (str_eq q p)) e.protocols;
          inboxes = remove str_eq p e.inboxes;
          router = none;
        })
        store
removed-IsRegistered p e store v = record {
  distinct_protocols = distinct-retain p e.protocols v.distinct_protocols;
  normal = All-retain (λ q. not (str_eq q p)) e.protocols v.normal;
  listed = λ q. ground (
    arith,
    contains-retain q p e.protocols,
    get-remove str_eq str_eq_iff p q e.inboxes,
    v.listed q,
    Bool-cases (str_eq p q),
  );
  serving = tt;
  owned =
      λ q i found. ground (arith, get-remove str_eq str_eq_iff p q e.inboxes, v.owned q i, found);
  apart = λ q r i j at_q at_r same. ground (
    arith,
    get-remove str_eq str_eq_iff p q e.inboxes,
    get-remove str_eq str_eq_iff p r e.inboxes,
    v.apart q r i j,
    at_q,
    at_r,
    same,
  );
}

-- The router matters only to the field `serving`.
pub rerouted-IsRegistered :
    (e : IrohEndpoint) (store : Store Message) (router : Option Inboxes)
    (cache : List ((Str × Str) × ℕ))
    → IsRegistered e store
    → IsServing router e
    → IsRegistered (record e { router = router; connection_cache = cache }) store
rerouted-IsRegistered e store router cache v s = record {
  distinct_protocols = v.distinct_protocols;
  normal = v.normal;
  listed = v.listed;
  serving = IsServing-same router s;
  owned = v.owned;
  apart = v.apart;
}
  where
    IsServing-same :
        (r : Option Inboxes)
        → IsServing r e
        → IsServing r (record e { router = router; connection_cache = cache })
    IsServing-same none h = tt
    IsServing-same (some running) h = h
