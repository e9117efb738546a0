-- ===== src/Health/Overlap.antt =====
-- No two rounds of checks overlap, and so the checks and the table come to agree.
use catalyst_router.Prelude.{
  filter, length-zero, alone, All-mid, some, ℕ, String, Bool, true, false, List, [], ◌∷◌, ◌++◌, ◌≤◌,
  map, ◌≡◌, refl, sym, ap, ◌∙◌, subst, arith, inl, inr, Bool-cases, All, Distinct, includes, length,
  ◌==◌, string_key, ==_comm, nat_beq,
}
use catalyst_router.Table.{DataChannel, RouteTable}
use catalyst_router.Action.{HealthUpdate}
use catalyst_router.Rib.Invariant.{channel_name}
use catalyst_router.Rib.Preservation.{health_update-Distinct}
use catalyst_router.Views.{public_table}
use catalyst_router.Node.State.{api_state}
use catalyst_router.Health.{HealthMap, get_health, Checker, check_one, current}
use catalyst_router.Health.Shown.{status_of, own-status, apply_health-status}
use catalyst_router.Health.Agreement.{
  after_update, tell-append, Agree, tell, check_one-Agree, current-Agree,
}
use catalyst_router.Health.Telling.{tell-names, tell-routes, tell-Distinct}
use catalyst_router.Health.Rounds.{
  settled, taken_in, Pending, pending_of, Watch, start_checks, stop_checks, interval_fires, note,
  told, on_monitor, end_check, end_round, Step, started, stopped, fired, answered, ended,
  peers_changed, Reaches, here, after,
}

abbrev pending_name : Pending → String
pending_name p = p.route.name

-- What a check has noted of its route is what is noted now.
abbrev IsCurrent : HealthMap → Pending → Type 0
IsCurrent h p = p.noted ≡ get_health h p.route.name

abbrev IsCoherent : HealthMap → List Pending → Type 0
IsCoherent h ps = Distinct (map pending_name ps) × All (IsCurrent h) ps

abbrev count_of : Bool → ℕ
count_of true = 1
count_of false = 0

record IsSteady (x : Watch) : Type 0 where
  distinct : Distinct (map channel_name x.table.local_routes)
  pub agree : Agree x.monitor.health (settled x)
  pub count : length x.monitor.rounds ≡ count_of x.monitor.running
  coherent : All (IsCoherent x.monitor.health) x.monitor.rounds

-- A round that has not ended is the only one.
count-one : (b : Bool) {n : ℕ} → n ≡ count_of b → n ≤ 1
count-one true e = omega (arith, e)
count-one false e = omega (arith, e)

-- To note what a check found leaves what the other checks of its round have noted.
module _ (c : Checker) (p : Pending) (h : HealthMap) where
  note-other :
      (qs : List Pending)
      → includes (map pending_name qs) p.route.name ≡ false
      → All (IsCurrent h) qs
      → All (IsCurrent (note c p h)) qs
  note-other [] n a = tt
  note-other (q ∷ qs) n a =
      (ground (arith, ==_comm p.route.name q.route.name, a.0), note-other qs (ground arith) a.1)

  omitted :
      (k : String) (ps qs : List Pending)
      → includes (map pending_name (ps ++ p ∷ qs)) k ≡ false
      → ((p.route.name == k) ≡ false) × (includes (map pending_name (ps ++ qs)) k ≡ false)
  omitted k [] qs n = ground (arith, n)
  omitted k (q ∷ ps) qs n =
      let (other, rest) = omitted k ps qs (ground (arith, n)) in (other, ground (arith, n, rest))

  note-IsCoherent :
      (ps qs : List Pending) → IsCoherent h (ps ++ p ∷ qs) → IsCoherent (note c p h) (ps ++ qs)
  note-IsCoherent [] qs (d, a) = (d.1, note-other qs d.0 a.1)
  note-IsCoherent (q ∷ ps) qs (d, a) =
      let (other, absent) = omitted q.route.name ps qs d.0 in
      let (distinct, currents) = note-IsCoherent ps qs (d.1, a.1) in
      ((absent, distinct), (rw other a.0, currents))

pending-names :
    (h : HealthMap) (rs : List DataChannel)
    → map pending_name (map (pending_of h) rs) ≡ map channel_name rs
pending-names h [] = refl
pending-names h (r ∷ rs) = ap (λ ns. r.name ∷ ns) (pending-names h rs)

All-IsCurrent : (h : HealthMap) (rs : List DataChannel) → All (IsCurrent h) (map (pending_of h) rs)
All-IsCurrent h [] = tt
All-IsCurrent h (r ∷ rs) = (refl, All-IsCurrent h rs)

-- The entries under some names.
abbrev among : List String → HealthMap → HealthMap
among names h = filter (λ e. includes names e.0) h

-- A round begins only if none runs.
fires-IsSteady :
    (x : Watch) → IsSteady x → IsSteady (on_monitor (interval_fires x.table.local_routes) x)
unfolding interval_fires
fires-IsSteady x s =
    let routes = x.table.local_routes in
    let health = current routes x.monitor.health in
    elim (Bool-cases x.monitor.running) [
      | inl busy ↦ simp busy s
      | inr idle ↦
          let none_runs : x.monitor.rounds ≡ [] =
            length-zero x.monitor.rounds (ground (arith, s.count, idle)) in
          rw (idle, none_runs)
            (record {
              distinct = s.distinct;
              agree =
                  subst (λ names. Agree (among names x.monitor.health) (settled x))
                    (tell-names x.queue x.table)
                    (current-Agree x.monitor.health (settled x) s.agree);
              count = refl;
              coherent = (
                (
                  subst Distinct (sym (pending-names health routes)) s.distinct,
                  All-IsCurrent health routes,
                ),
                tt,
              );
            })
    ]

-- The end of a check that noted what is still noted is `checkOne`.
end_check-Agree :
    (c : Checker) (p : Pending) (h : HealthMap) (table : RouteTable)
    → c.has_dispatch ≡ true
    → IsCurrent h p
    → Agree h table
    → Agree (note c p h) (tell (told c p) table)
unfolding check_one
end_check-Agree c p h table d now a = rw now (check_one-Agree c p.route h table d a)

answered-IsSteady :
    (x : Watch) (c : Checker) (before later : List (List Pending)) (ps qs : List Pending)
    (p : Pending)
    → c.has_dispatch ≡ true
    → x.monitor.rounds ≡ before ++ (ps ++ p ∷ qs) ∷ later
    → IsSteady x
    → IsSteady (end_check c p (before ++ (ps ++ qs) ∷ later) x)
answered-IsSteady x c before later ps qs p d e s =
    let h = x.monitor.health in
    let (first, last) =
      alone before later (ps ++ p ∷ qs)
        (omega (arith, count-one x.monitor.running s.count, ap length e)) in
    let round : x.monitor.rounds ≡ (ps ++ p ∷ qs) ∷ [] = rw (e, first, last) refl in
    let whole = (subst (All (IsCoherent h)) round s.coherent).0 in
    rw (first, last)
      (record {
        distinct = s.distinct;
        agree =
            subst (Agree (note c p h)) (sym (tell-append x.queue (told c p) x.table))
              (end_check-Agree c p h (settled x) d (All-mid (IsCurrent h) ps qs p whole.1) s.agree);
        count = ap length (sym round) ∙ s.count;
        coherent = (note-IsCoherent c p h ps qs whole, tt);
      })

ended-IsSteady :
    (x : Watch) (before later : List (List Pending))
    → x.monitor.rounds ≡ before ++ [] ∷ later
    → IsSteady x
    → IsSteady (end_round (before ++ later) x)
ended-IsSteady x before later e s =
    let (first, last) =
      alone before later [] (omega (arith, count-one x.monitor.running s.count, ap length e)) in
    rw (first, last)
      (record { distinct = s.distinct; agree = s.agree; count = refl; coherent = tt })

start-IsSteady : (x : Watch) → IsSteady x → IsSteady (on_monitor start_checks x)
start-IsSteady x s = elim (Bool-cases (nat_beq x.monitor.interval_ms 0)) [
  | inl none_set ↦ rw none_set s
  | inr set ↦
      rw set
        (record { distinct = s.distinct; agree = s.agree; count = s.count; coherent = s.coherent })
]

stop-IsSteady : (x : Watch) → IsSteady x → IsSteady (on_monitor stop_checks x)
stop-IsSteady x s = elim (Bool-cases x.monitor.has_interval) [
  | inl set ↦
      rw set
        (record { distinct = s.distinct; agree = s.agree; count = s.count; coherent = s.coherent })
  | inr none_set ↦ simp none_set s
]

peers-IsSteady :
    (x : Watch) (table : RouteTable)
    → table.local_routes ≡ x.table.local_routes
    → IsSteady x
    → IsSteady (record x { table = table })
peers-IsSteady x table e s = record {
  distinct = subst (λ rs. Distinct (map channel_name rs)) (sym e) s.distinct;
  agree = λ name. rw (tell-routes x.queue table x.table e) (s.agree name);
  count = s.count;
  coherent = s.coherent;
}

taken-IsSteady :
    (x : Watch) (u : HealthUpdate) (us : List HealthUpdate)
    → x.queue ≡ u ∷ us
    → IsSteady x
    → IsSteady (record x { queue = us; table = after_update u x.table })
taken-IsSteady x u us e s = record {
  distinct = health_update-Distinct u x.table s.distinct;
  agree = subst (λ q. Agree x.monitor.health (tell q x.table)) e s.agree;
  count = s.count;
  coherent = s.coherent;
}

step-IsSteady : {x y : Watch} → Step x y → IsSteady x → IsSteady y
step-IsSteady (started x) s = start-IsSteady x s
step-IsSteady (stopped x) s = stop-IsSteady x s
step-IsSteady (fired x live) s = fires-IsSteady x s
step-IsSteady (answered x c before later ps qs p d e) s =
    answered-IsSteady x c before later ps qs p d e s
step-IsSteady (ended x before later e) s = ended-IsSteady x before later e s
step-IsSteady (taken_in x u us e) s = taken-IsSteady x u us e s
step-IsSteady (peers_changed x table e) s = peers-IsSteady x table e s

reaches-IsSteady : {x y : Watch} → IsSteady x → Reaches x y → IsSteady y
reaches-IsSteady s here = s
reaches-IsSteady s (after r t) = step-IsSteady t (reaches-IsSteady s r)

-- Let a checker with nothing running, whose notes give every local route of the table, all of
-- distinct names, its status once the updates that wait in the bus's queue are in, be started and
-- stopped, let its intervals fire, the checks of its rounds end in any order and dispatch what they
-- find into the queue, the rounds end when all their checks have, and the bus take in the queue's
-- updates, in their order, and other actions that leave the local routes, whenever it comes to them.
-- At any time at most one round runs, and once the updates that wait then are in, the notes give
-- every local route of the table its status, which is the one that the API shows.
pub reaches-Agree :
    (x y : Watch)
    → Distinct (map channel_name x.table.local_routes)
    → Agree x.monitor.health (settled x)
    → x.monitor.running ≡ false
    → x.monitor.rounds ≡ []
    → Reaches x y
    → (length y.monitor.rounds ≤ 1)
      × Agree y.monitor.health (settled y)
      × (map status_of (api_state (some y.monitor.health) (settled y)).local_routes
          ≡ map status_of (settled y).local_routes)
unfolding api_state public_table
reaches-Agree x y distinct agree idle none_runs r =
    let first : IsSteady x = record {
      distinct = distinct;
      agree = agree;
      count = rw (none_runs, idle) refl;
      coherent = rw none_runs tt;
    } in
    let s = reaches-IsSteady first r in
    (
      count-one y.monitor.running s.count,
      s.agree,
      apply_health-status y.monitor.health (settled y).local_routes (
          own-status y.monitor.health (settled y).local_routes
            (tell-Distinct y.queue y.table s.distinct) s.agree),
    )
