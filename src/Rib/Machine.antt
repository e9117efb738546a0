-- ===== src/Rib/Machine.antt =====
-- `plan`, `stateChanged` and the run of a list of actions.
use catalyst_router.Prelude.{ℕ, String, Bool, true, false, List, [], ◌∷◌}
use catalyst_router.Table.{RouteTable, NewState, same, fresh, PlanResult, new_state}
use catalyst_router.Action.{
  Action, local_peer_create, local_peer_update, local_peer_delete, local_route_create,
  local_route_delete, local_route_health_update, internal_protocol_open,
  internal_protocol_connected, internal_protocol_close, internal_protocol_update,
  internal_protocol_keepalive, tick,
}
use catalyst_router.Rib.Local.{
  plan_local_peer_create, plan_local_peer_update, plan_local_peer_delete, plan_local_route_create,
  plan_local_route_delete, plan_local_route_health_update,
}
use catalyst_router.Rib.Session.{
  plan_internal_protocol_open, plan_internal_protocol_connected, plan_internal_protocol_close,
  plan_internal_protocol_keepalive,
}
use catalyst_router.Rib.Update.{plan_internal_protocol_update}
use catalyst_router.Rib.Expiry.{plan_tick}

-- The action's type decides the handler.
unfoldable pub plan : ℕ → String → Action → RouteTable → PlanResult
plan clock node_id (local_peer_create d) state = plan_local_peer_create d state
plan clock node_id (local_peer_update d) state = plan_local_peer_update d state
plan clock node_id (local_peer_delete d) state = plan_local_peer_delete d state
plan clock node_id (local_route_create d) state = plan_local_route_create d state
plan clock node_id (local_route_delete d) state = plan_local_route_delete d state
plan clock node_id (local_route_health_update d) state = plan_local_route_health_update d state
plan clock node_id (internal_protocol_open d) state = plan_internal_protocol_open clock d state
plan clock node_id (internal_protocol_connected d) state =
    plan_internal_protocol_connected clock d state
plan clock node_id (internal_protocol_close d) state = plan_internal_protocol_close d state
plan clock node_id (internal_protocol_update d) state =
    plan_internal_protocol_update clock node_id d state
plan clock node_id (internal_protocol_keepalive d) state =
    plan_internal_protocol_keepalive clock d state
plan clock node_id (tick now) state = plan_tick now state

abbrev is_fresh : NewState → Bool
is_fresh same = false
is_fresh (fresh s) = true

-- `plan.prevState !== plan.newState`, a comparison of references.
abbrev pub state_changed : PlanResult → Bool
state_changed p = is_fresh p.state

-- The table after a list of actions, each with the time at which it is planned.
unfoldable pub run : String → List (ℕ × Action) → RouteTable → RouteTable
run node_id [] state = state
run node_id ((clock, action) ∷ rest) state =
    run node_id rest (new_state (plan clock node_id action state))
