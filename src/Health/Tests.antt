-- ===== src/Health/Tests.antt =====
-- A table with one route that is checked for the first time.
use catalyst_router.Prelude.{
  map, ◌≡◌, true, false, [], ◌∷◌, ◌≤◌, length, arith, some, inl, inr, refl, Bool-cases, ◌==◌,
  string_key,
}
use catalyst_router.Table.{RouteTable}
use catalyst_router.Samples.{books}
use catalyst_router.Health.{Checker, ok_after}
use catalyst_router.Health.Agreement.{Agree}
use catalyst_router.Health.Rounds.{
  Watch, Reaches, here, after, started, fired, answered, on_monitor, start_checks, interval_fires,
  end_check, pending_of, settled,
}
use catalyst_router.Health.Overlap.{reaches-Agree}
use catalyst_router.Health.Shown.{status_of}
use catalyst_router.Node.State.{api_state}

abbrev reachable : Checker
reachable = record {
  build_health_url = λ endpoint. some "http://books:8080/health";
  fetch = λ url. ok_after 12;
  stamp = "2026-01-01";
  has_dispatch = true;
}

abbrev one_route : RouteTable
one_route = record { local_routes = books ∷ []; peers = []; internal_routes = [] }

nothing_noted : Agree [] one_route
nothing_noted name = elim (Bool-cases ("books" == name)) [
  | inl same ↦ rw same refl
  | inr other ↦ rw other tt
]

-- A checker is started, its interval fires, the one check of its round ends, and it fires again
-- before the round has ended.
abbrev idle : Watch
idle = record {
  monitor = record {
    interval_ms = 30000;
    has_interval = false;
    intervals = 0;
    running = false;
    health = [];
    rounds = [];
  };
  queue = [];
  table = one_route;
}

abbrev set_up : Watch
set_up = on_monitor start_checks idle

abbrev in_round : Watch
unfolding interval_fires
in_round = on_monitor (interval_fires set_up.table.local_routes) set_up

abbrev checked : Watch
checked = end_check reachable (pending_of [] books) ([] ∷ []) in_round

abbrev fired_again : Watch
fired_again = on_monitor (interval_fires checked.table.local_routes) checked

checks : Reaches idle fired_again
unfolding interval_fires
checks =
    after
      (after (after (after here (started idle)) (fired set_up (omega arith)))
        (answered in_round reachable [] [] [] [] (pending_of [] books) refl refl))
      (fired checked (omega arith))

reaches-Agree_example :
    (length fired_again.monitor.rounds ≤ 1)
    × Agree fired_again.monitor.health (settled fired_again)
    × (map status_of
          (api_state (some fired_again.monitor.health) (settled fired_again)).local_routes
        ≡ map status_of (settled fired_again).local_routes)
reaches-Agree_example = reaches-Agree idle fired_again (refl, tt) nothing_noted refl refl checks
