-- ===== src/Bus/Attribution.antt =====
-- What every route says of its peer and its path, through a dispatch.
use catalyst_router.Prelude.{
  String, List, [], ◌∷◌, Option, none, some, inl, inr, Bool-cases, All, All-filter, ℕ, string_key,
}
use catalyst_router.Table.{
  InternalRoute, PlanResult, PeerRecord, new_state, PortOperation, RouteTable,
}
use catalyst_router.Action.{
  Action, UpdateItem, ProtocolUpdate, local_peer_create, local_peer_update, local_peer_delete,
  local_route_create, local_route_delete, local_route_health_update, internal_protocol_open,
  internal_protocol_connected, internal_protocol_close, internal_protocol_update,
  internal_protocol_keepalive, tick,
}
use catalyst_router.Rib.Machine.{plan, state_changed}
use catalyst_router.Rib.Attribution.{Attributes, Admits, plan-Attributes}
use catalyst_router.Journal.{commit}
use catalyst_router.Ports.{Allocator, AllocateResult, success, no_ports_available, allocate_port}
use catalyst_router.Bus.Config.{Config, RoutePolicy}
use catalyst_router.Bus.Allocation.{
  Pool, internal_result, stamp_internals, allocate_ports, plan_port_allocations,
}
use catalyst_router.Bus.Propagation.{apply_inbound_policy, with_policy, filter_updates, remaining}
use catalyst_router.Bus.Dispatch.{Bus, World, dispatch, complete, unchanged, planned, is_refused}

module _ (Q : String → List String → Type 0) where
  internal_result-Attributes :
      (r : InternalRoute) (ops : List PortOperation) (ports : List (String × ℕ))
      (got : Allocator × AllocateResult)
      → Attributes Q r
      → Attributes Q (internal_result r ops ports got).0
  internal_result-Attributes r ops ports (a, success port) h = h
  internal_result-Attributes r ops ports (a, no_ports_available) h = h

  stamp_internals-Attributes :
      (rs : List InternalRoute) (pool : Pool) (ports : List (String × ℕ))
      → All (Attributes Q) rs
      → All (Attributes Q) (stamp_internals rs pool ports).0
  unfolding stamp_internals
  stamp_internals-Attributes [] pool ports h = tt
  stamp_internals-Attributes (r ∷ rs) (a, ops) ports h = (
    internal_result-Attributes r ops ports (allocate_port a _) h.0,
    stamp_internals-Attributes rs _ _ h.1,
  )

  allocations-Attributes :
      (p : PlanResult) (a : Option Allocator)
      → All (Attributes Q) (new_state p).internal_routes
      → All (Attributes Q) (new_state (plan_port_allocations p a).0).internal_routes
  unfolding plan_port_allocations allocate_ports
  allocations-Attributes p none h = h
  allocations-Attributes p (some a) h =
      stamp_internals-Attributes (new_state p).internal_routes _ [] h

  complete-Attributes :
      (c : Config) (w : World) (action : Action) (p : PlanResult) (bus : Bus)
      → All (Attributes Q) (new_state p).internal_routes
      → All (Attributes Q) (complete c w action p bus).0.rib.table.internal_routes
  unfolding complete commit
  complete-Attributes c w action p bus h = allocations-Attributes p bus.port_allocator h

  abbrev AllAdmit : Option Action → Type 0
  AllAdmit none = Unit
  AllAdmit (some action) = Admits Q action

  remaining-AllAdmit :
      (d : ProtocolUpdate) (kept : List UpdateItem)
      → All (λ u. Q d.peer_info.name u.node_path) kept
      → AllAdmit (remaining d kept)
  remaining-AllAdmit d [] h = tt
  remaining-AllAdmit d (u ∷ us) h = h

  filter_updates-AllAdmit :
      (policy : RoutePolicy) (peer : PeerRecord) (d : ProtocolUpdate)
      → Admits Q (internal_protocol_update d)
      → AllAdmit (filter_updates policy peer d)
  filter_updates-AllAdmit policy peer d h =
      remaining-AllAdmit d _ (All-filter (λ u. Q d.peer_info.name u.node_path) _ d.updates h)

  with_policy-AllAdmit :
      (policy : Option RoutePolicy) (peer : Option PeerRecord) (d : ProtocolUpdate)
      → Admits Q (internal_protocol_update d)
      → AllAdmit (with_policy policy peer d)
  with_policy-AllAdmit none peer d h = h
  with_policy-AllAdmit (some policy) none d h = h
  with_policy-AllAdmit (some policy) (some peer) d h = filter_updates-AllAdmit policy peer d h

  planned-Attributes :
      (c : Config) (w : World) (action : Action) (filtered : Option Action) (bus : Bus)
      → AllAdmit filtered
      → All (Attributes Q) bus.rib.table.internal_routes
      → All (Attributes Q) (planned c w action filtered bus).0.rib.table.internal_routes
  unfolding unchanged
  planned-Attributes c w action none bus q h = h
  planned-Attributes c w action (some filtered) bus q h =
      let p = plan w.clock c.node_name filtered bus.rib.table in
      elim (Bool-cases (state_changed p)) [
        | inl yes_changed ↦ rw yes_changed (
            complete-Attributes c w action p bus
              (plan-Attributes Q w.clock c.node_name filtered bus.rib.table q h))
        | inr idle ↦ rw idle h
      ]

  inbound-AllAdmit :
      (c : Config) (state : RouteTable) (action : Action)
      → Admits Q action
      → AllAdmit (apply_inbound_policy c state action)
  unfolding apply_inbound_policy
  inbound-AllAdmit c state (internal_protocol_update d) h =
      with_policy-AllAdmit c.route_policy _ d h
  inbound-AllAdmit c state (local_peer_create d) h = tt
  inbound-AllAdmit c state (local_peer_update d) h = tt
  inbound-AllAdmit c state (local_peer_delete d) h = tt
  inbound-AllAdmit c state (local_route_create d) h = tt
  inbound-AllAdmit c state (local_route_delete d) h = tt
  inbound-AllAdmit c state (local_route_health_update d) h = tt
  inbound-AllAdmit c state (internal_protocol_open d) h = tt
  inbound-AllAdmit c state (internal_protocol_connected d) h = tt
  inbound-AllAdmit c state (internal_protocol_close d) h = tt
  inbound-AllAdmit c state (internal_protocol_keepalive d) h = tt
  inbound-AllAdmit c state (tick now) h = tt

  -- A dispatch keeps what all routes have, if the updates of its action have it.
  pub dispatch-Attributes :
      (c : Config) (w : World) (action : Action) (bus : Bus)
      → Admits Q action
      → All (Attributes Q) bus.rib.table.internal_routes
      → All (Attributes Q) (dispatch c w action bus).0.rib.table.internal_routes
  unfolding dispatch
  dispatch-Attributes c w action bus q h = elim (Bool-cases (is_refused c action)) [
    | inl refused ↦ rw (refused, dispatch) h
    | inr fine ↦
        rw (fine, dispatch)
          (planned-Attributes c w action (apply_inbound_policy c bus.rib.table action) bus
            (inbound-AllAdmit c bus.rib.table action q) h)
  ]
