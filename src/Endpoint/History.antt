-- ===== src/Endpoint/History.antt =====
-- Histories of an endpoint of src/iroh/endpoint.rs, and what registering and removing a service
-- does to the inbound connections.
use rust_ma_core.Common.{
  Str, true, not, ◌||◌, is_some, str_eq, str_eq_iff, str_eq_refl, Option, none, some, List, [], ◌∷◌,
  ◌++◌, ◌≡◌, refl, subst, sym, arith, Option-cases, inl, inr, if◌then◌else◌,
}
use rust_ma_core.Common.Maps.{get, get-insert, get-remove}
use rust_ma_core.Inbox.{Inbox, Store}
use rust_ma_core.Msg.Types.{Message}
use rust_ma_core.Transport.{normalize_protocol}
use rust_ma_core.Transport.Strings.{normalize_protocol_idem}
use rust_ma_core.Endpoint
use rust_ma_core.Endpoint.{
  Inboxes, IrohEndpoint, contains, handlers, start_router, reload_router_if_running, remove_service,
  service, close,
}
use rust_ma_core.Endpoint.Registry.{
  IsServing, IsRegistered, served, get-handlers, fresh_queue, new_inbox, registered, service_known,
  service_new, registered-IsRegistered, removed-IsRegistered, rerouted-IsRegistered,
}

abbrev pub State : Type 0
State = IrohEndpoint × Store Message

-- The calls of the owner.
pub data Call : Type 0 where
  registers removes : Str → Call
  starts closes : Call

-- The state without the inbox that is returned.
abbrev after_service : Option (Inbox × IrohEndpoint × Store Message) → Option State
after_service none = none
after_service (some (inbox, e, store)) = some (e, store)

unfoldable pub step : Call → State → Option State
unfolding service remove_service start_router close
step (registers protocol) (e, store) = after_service (service protocol e store)
step (removes protocol) (e, store) = some ((remove_service protocol e).1, store)
step starts (e, store) = some (start_router e, store)
step closes (e, store) = some ((close e).1, store)

unfoldable pub run : List Call → State → Option State
run [] s = some s
run (c ∷ rest) s = elim (step c s) [ none ↦ none | some t ↦ run rest t ]

-- The state is the first or the registered one.
service-cases :
    (protocol : Str) (e : IrohEndpoint) (store : Store Message)
    → IsRegistered e store
    → (t : State) × (after_service (service protocol e store) ≡ some t) × IsRegistered t.0 t.1
service-cases protocol e store v =
    elim (Option-cases (get str_eq (normalize_protocol protocol) e.inboxes)) [
      | inl unknown ↦ (
        (registered (normalize_protocol protocol) e store, store ++ fresh_queue ∷ []),
        rw (service_new protocol e store v unknown) refl,
        registered-IsRegistered (normalize_protocol protocol) e store
            (normalize_protocol_idem protocol) v unknown,
      )
      | inr (inbox, known) ↦ ((e, store), rw (service_known protocol e store inbox v known) refl, v)
    ]

remove_service-IsRegistered :
    (protocol : Str) (e : IrohEndpoint) (store : Store Message)
    → IsRegistered e store
    → IsRegistered (remove_service protocol e).1 store
unfolding remove_service reload_router_if_running start_router
remove_service-IsRegistered protocol e store v =
    let n = normalize_protocol protocol in
    elim (Option-cases (get str_eq n e.inboxes)) [
      | inl unknown ↦ rw (remove_service, unknown) v
      | inr (inbox, known) ↦ elim (Option-cases e.router) [
        | inl stopped ↦
            rw (remove_service, known, stopped)
              (rerouted-IsRegistered _ store none e.connection_cache
                (removed-IsRegistered n e store v) tt)
        | inr (running, found) ↦
            rw (remove_service, known, found)
              (rerouted-IsRegistered _ store _ e.connection_cache (removed-IsRegistered n e store v)
                refl)
      ]
    ]

start_router-IsRegistered :
    (e : IrohEndpoint) (store : Store Message)
    → IsRegistered e store
    → IsRegistered (start_router e) store
unfolding start_router
start_router-IsRegistered e store v = elim (Option-cases e.router) [
  | inl stopped ↦
      rw (start_router, stopped)
        (rerouted-IsRegistered e store (some (handlers e.protocols e.inboxes)) e.connection_cache v
          refl)
  | inr (running, found) ↦
      let same : start_router e ≡ e = ground (arith, found) in
      subst (λ x. IsRegistered x store) (sym same) v
]

step-IsRegistered :
    (c : Call) (e : IrohEndpoint) (store : Store Message)
    → IsRegistered e store
    → (t : State) × (step c (e, store) ≡ some t) × IsRegistered t.0 t.1
unfolding step close
step-IsRegistered (registers protocol) e store v = service-cases protocol e store v
step-IsRegistered (removes protocol) e store v =
    (((remove_service protocol e).1, store), refl, remove_service-IsRegistered protocol e store v)
step-IsRegistered starts e store v =
    ((start_router e, store), refl, start_router-IsRegistered e store v)
step-IsRegistered closes e store v =
    (((close e).1, store), refl, rerouted-IsRegistered e store none [] v tt)

run-IsRegistered_from :
    (calls : List Call) (e : IrohEndpoint) (store : Store Message)
    → IsRegistered e store
    → (t : State) × (run calls (e, store) ≡ some t) × IsRegistered t.0 t.1
unfolding run
run-IsRegistered_from [] e store v = ((e, store), refl, v)
run-IsRegistered_from (c ∷ rest) e store v =
    let ((e', store'), made, v') = step-IsRegistered c e store v in
    let (t, ran, w) = run-IsRegistered_from rest e' store' v' in (t, rw (run, made) ran, w)

pub new-IsRegistered : (id : Str) → IsRegistered (Endpoint.new id) []
unfolding Endpoint.new
new-IsRegistered id = record {
  distinct_protocols = refl;
  normal = tt;
  listed = λ p. refl;
  serving = tt;
  owned = λ p i h. cc;
  apart = λ p q i j h k e. cc;
}

-- Whatever services are registered and removed, and whenever the router is started or the endpoint
-- closed, no call panics, and afterwards the protocols are distinct and in normal form, they are
-- the ones that have an inbox, different protocols have different queues, and a running router has
-- exactly the handlers of these protocols with these inboxes.
pub run-IsRegistered :
    (id : Str) (calls : List Call)
    → (t : State) × (run calls (Endpoint.new id, []) ≡ some t) × IsRegistered t.0 t.1
run-IsRegistered id calls = run-IsRegistered_from calls (Endpoint.new id) [] (new-IsRegistered id)

served_lem :
    (e : IrohEndpoint) (store : Store Message) (p : Str)
    → IsRegistered e store
    → served p e ≡ (if is_some e.router then get str_eq p e.inboxes else none)
served_lem e store p v = go e.router v.serving
  where
    go :
        (router : Option Inboxes)
        → IsServing router e
        → served p (record e { router = router })
          ≡ (if is_some router then get str_eq p e.inboxes else none)
    go none h = refl
    go (some running) h = ground (arith, h, get-handlers p e.protocols e.inboxes, v.listed p)

-- Registering a service never fails and returns the inbox that stands in the map under the
-- protocol's normal form; every other protocol keeps its inbox.
pub service_lem :
    (protocol : Str) (e : IrohEndpoint) (store : Store Message)
    → IsRegistered e store
    → (inbox : Inbox) × (e' : IrohEndpoint) × (store' : Store Message) × (service protocol e store
        ≡ some (inbox, e', store'))
      × IsRegistered e' store'
      × ((q : Str)
          → get str_eq q e'.inboxes ≡ (
              if str_eq (normalize_protocol protocol) q
              then some inbox
              else get str_eq q e.inboxes))
service_lem protocol e store v =
    let n = normalize_protocol protocol in
    elim (Option-cases (get str_eq n e.inboxes)) [
      | inl unknown ↦ (
        new_inbox store,
        registered n e store,
        store ++ fresh_queue ∷ [],
        service_new protocol e store v unknown,
        registered-IsRegistered n e store (normalize_protocol_idem protocol) v unknown,
        λ q. get-insert str_eq str_eq_iff n q (new_inbox store) e.inboxes,
      )
      | inr (inbox, known) ↦ (
        inbox,
        e,
        store,
        service_known protocol e store inbox v known,
        v,
        λ q. ground (arith, str_eq_iff n q, known),
      )
    ]

-- After the registration of a service, an inbound connection for its protocol reaches the inbox
-- that was returned, if the router was running or the protocol was new.
pub served-service :
    (protocol : Str) (e e' : IrohEndpoint) (store store' : Store Message) (inbox : Inbox)
    → IsRegistered e store
    → (is_some e.router || not (is_some (get str_eq (normalize_protocol protocol) e.inboxes)))
      ≡ true
    → service protocol e store ≡ some (inbox, e', store')
    → served (normalize_protocol protocol) e' ≡ some inbox
served-service protocol e e' store store' inbox v ready made =
    let n = normalize_protocol protocol in
    elim (Option-cases (get str_eq n e.inboxes)) [
      | inl unknown ↦
          let w = registered-IsRegistered n e store (normalize_protocol_idem protocol) v unknown in
          ground (
            arith,
            made,
            service_new protocol e store v unknown,
            served_lem (registered n e store) (store ++ fresh_queue ∷ []) n w,
            get-insert str_eq str_eq_iff n n (new_inbox store) e.inboxes,
            str_eq_refl n,
          )
      | inr (other, known) ↦ ground (
        arith,
        made,
        ready,
        known,
        service_known protocol e store other v known,
        served_lem e store n v,
      )
    ]

-- Removing a service tells if the protocol was registered, and afterwards no inbound connection for
-- its normal form reaches an inbox, while every other protocol is served as before.
pub served-remove_service :
    (protocol q : Str) (e : IrohEndpoint) (store : Store Message)
    → IsRegistered e store
    → ((remove_service protocol e).0 ≡ is_some (get str_eq (normalize_protocol protocol) e.inboxes))
      × (served q (remove_service protocol e).1
          ≡ (if str_eq (normalize_protocol protocol) q then none else served q e))
unfolding remove_service reload_router_if_running start_router
served-remove_service protocol q e store v =
    let n = normalize_protocol protocol in
    let w = remove_service-IsRegistered protocol e store v in
    (
      ground arith,
      ground (
        arith,
        served_lem ((remove_service protocol e).1) store q w,
        served_lem e store q v,
        get-remove str_eq str_eq_iff n q e.inboxes,
        str_eq_iff n q,
        Option-cases (get str_eq n e.inboxes),
        Option-cases e.router,
      ),
    )
