-- ===== src/Rib/Previous.antt =====
-- Every plan starts from the table that it is given, and one that changes nothing says nothing.
use catalyst_router.Prelude.{ℕ, String, ◌≡◌, arith, false}
use catalyst_router.Table.{RouteTable, new_state}
use catalyst_router.Action.{
  Action, local_peer_create, local_peer_update, local_peer_delete, local_route_create,
  local_route_delete, local_route_health_update, internal_protocol_open,
  internal_protocol_connected, internal_protocol_close, internal_protocol_update,
  internal_protocol_keepalive, tick,
}
use catalyst_router.Rib.Local.{
  plan_local_peer_create, plan_local_peer_update, plan_local_peer_delete, plan_local_route_create,
  plan_local_route_delete, plan_local_route_health_update,
}
use catalyst_router.Rib.Session.{
  plan_internal_protocol_open, plan_internal_protocol_connected, plan_internal_protocol_close,
  plan_internal_protocol_keepalive,
}
use catalyst_router.Rib.Update.{plan_internal_protocol_update}
use catalyst_router.Rib.Expiry.{plan_tick}
use catalyst_router.Rib.Machine.{plan, state_changed}

pub plan-prev_state :
    (clock : ℕ) (node_id : String) (action : Action) (state : RouteTable)
    → (plan clock node_id action state).prev_state ≡ state
unfolding plan
plan-prev_state clock n (local_peer_create d) s = unfold plan_local_peer_create in ground arith
plan-prev_state clock n (local_peer_update d) s = unfold plan_local_peer_update in ground arith
plan-prev_state clock n (local_peer_delete d) s = unfold plan_local_peer_delete in ground arith
plan-prev_state clock n (local_route_create d) s = unfold plan_local_route_create in ground arith
plan-prev_state clock n (local_route_delete d) s = unfold plan_local_route_delete in ground arith
plan-prev_state clock n (local_route_health_update d) s =
    unfold plan_local_route_health_update in ground arith
plan-prev_state clock n (internal_protocol_open d) s =
    unfold plan_internal_protocol_open in ground arith
plan-prev_state clock n (internal_protocol_connected d) s =
    unfold plan_internal_protocol_connected in ground arith
plan-prev_state clock n (internal_protocol_close d) s =
    unfold plan_internal_protocol_close in ground arith
plan-prev_state clock n (internal_protocol_update d) s =
    unfold plan_internal_protocol_update in ground arith
plan-prev_state clock n (internal_protocol_keepalive d) s =
    unfold plan_internal_protocol_keepalive in ground arith
plan-prev_state clock n (tick now) s = unfold plan_tick in ground arith

-- A plan of no change leaves the table as it is.
pub plan-unchanged :
    (clock : ℕ) (node_id : String) (action : Action) (state : RouteTable)
    → state_changed (plan clock node_id action state) ≡ false
    → new_state (plan clock node_id action state) ≡ state
plan-unchanged clock n a s h = ground (arith, plan-prev_state clock n a s)
