-- ===== src/Node/State.antt =====
-- What apps/orchestrator/src/v2/catalyst-service.ts answers under `/api/state`.
use catalyst_router.Prelude.{Option, none, some}
use catalyst_router.Table.{RouteTable}
use catalyst_router.Views.{PublicRouteTable, public_table}
use catalyst_router.Health.{HealthMap, apply_health}

-- The notes of the checks, if there is a checker, are written into a copy of the table.
unfoldable pub api_state : Option HealthMap → RouteTable → PublicRouteTable
unfolding apply_health
api_state none snapshot = public_table snapshot
api_state (some health) snapshot =
    public_table (record snapshot { local_routes = apply_health health snapshot.local_routes })
