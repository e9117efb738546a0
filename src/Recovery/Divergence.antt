-- ===== src/Recovery/Divergence.antt =====
-- Recovery where the bus does more to an action than recovery repeats: bus.ts plans the action that
-- the route policy leaves, and commits the action as it came; service.ts plans what was committed.
use catalyst_router.Prelude.{
  List, true, ℕ, String, false, ◌≡◌, refl, ◌∙◌, sym, ap, [], ◌∷◌, none, some, arith, includes,
  lookup, find, string_key, pair_key, ◌==◌, inl, inr, Bool-cases, ==_refl, ==_comm,
}
use catalyst_router.Table.{RouteTable, PeerRecord, PeerInfo, InternalRoute, new_state}
use catalyst_router.Action.{Action, UpdateItem, add, ProtocolUpdate, internal_protocol_update}
use catalyst_router.Rib.Plans.{named}
use catalyst_router.Rib.Update.{
  plan_internal_protocol_update, apply_items, add_item, advertised, start, Progress, apply_item,
  apply_kind,
}
use catalyst_router.Rib.Previous.{plan-unchanged}
use catalyst_router.Rib.Machine.{plan, state_changed}
use catalyst_router.Rib.Invariant.{route_id}
use catalyst_router.Rib.BestPath.{update-internal_routes, item_id}
use catalyst_router.Journal.{ActionLog, append, commit}
use catalyst_router.Bus.Config.{Config, RoutePolicy}
use catalyst_router.Bus.Allocation.{plan_port_allocations}
use catalyst_router.Bus.Propagation.{apply_inbound_policy}
use catalyst_router.Recovery.{recover}
use catalyst_router.Recovery.History.{append-table}
use catalyst_router.Recovery.Service.{log_of, journal_log}
use catalyst_router.Journal.Laws.{IsOrdered}
use catalyst_router.Bus.Dispatch.{Bus, World, dispatch, planned, complete, unchanged}

-- An advertisement on no routes, and one of another name on one route.
add_first :
    (node_id : String) (peer : PeerInfo) (item : UpdateItem) (st : Progress)
    → includes item.node_path node_id ≡ false
    → st.routes ≡ []
    → (add_item node_id peer item st).routes ≡ advertised peer item ∷ []
unfolding add_item
add_first node_id peer item st free e = ground arith

add_second :
    (node_id : String) (peer : PeerInfo) (item : UpdateItem) (st : Progress) (r : InternalRoute)
    → includes item.node_path node_id ≡ false
    → st.routes ≡ r ∷ []
    → (r.name == item.route.name) ≡ false
    → (add_item node_id peer item st).routes ≡ r ∷ advertised peer item ∷ []
unfolding add_item
add_second node_id peer item st r free e apart = ground arith

-- A round of the loop for an advertisement.
apply_item-add :
    (node_id : String) (peer : PeerInfo) (item : UpdateItem) (st : Progress)
    → item.action ≡ add
    → apply_item node_id peer item st ≡ add_item node_id peer item st
apply_item-add node_id peer item st e = ap (λ kind. apply_kind kind node_id peer item st) e

some_none : {r : InternalRoute} {rs : List InternalRoute} → r ∷ rs ≡ [] → ⊥
some_none e = cc

module _ (node_id : String) (d : ProtocolUpdate) (state : RouteTable) (bad good : UpdateItem)
    (bad_add : bad.action ≡ add) (good_add : good.action ≡ add)
    (bad_free : includes bad.node_path node_id ≡ false)
    (good_free : includes good.node_path node_id ≡ false)
    (apart : (bad.route.name == good.route.name) ≡ false) (empty : state.internal_routes ≡ []) where
  -- The message as it came, on a table with no internal route.
  all_routes :
      (clock : ℕ)
      → d.updates ≡ bad ∷ good ∷ []
      → lookup route_id
          (item_id bad)
          (new_state (plan_internal_protocol_update clock node_id d state)).internal_routes
        ≡ some (advertised d.peer_info bad)
  unfolding apply_items
  all_routes clock both =
      let routes : (apply_items node_id d.peer_info d.updates (start state)).routes
          ≡ advertised d.peer_info bad ∷ advertised d.peer_info good ∷ [] =
        rw
          (
            both,
            apply_items,
            apply_item-add node_id d.peer_info bad (start state) bad_add,
            apply_item-add node_id d.peer_info good _ good_add,
          )
          (add_second node_id d.peer_info good _ (advertised d.peer_info bad) good_free
            (add_first node_id d.peer_info bad (start state) bad_free empty) apart) in
      ap (lookup route_id (item_id bad)) (update-internal_routes clock node_id d state ∙ routes)
      ∙ ground (arith, ==_refl (item_id bad))

  good_routes :
      (clock : ℕ)
      → d.updates ≡ good ∷ []
      → (new_state (plan_internal_protocol_update clock node_id d state)).internal_routes
        ≡ advertised d.peer_info good ∷ []
  unfolding apply_items
  good_routes clock one =
      update-internal_routes clock node_id d state
      ∙ rw (one, apply_items, apply_item-add node_id d.peer_info good (start state) good_add)
          (add_first node_id d.peer_info good (start state) good_free empty)

  -- The other route is not there, and the table is another one.
  good_lookup :
      (clock : ℕ)
      → d.updates ≡ good ∷ []
      → lookup route_id
          (item_id bad)
          (new_state (plan_internal_protocol_update clock node_id d state)).internal_routes
        ≡ none
  good_lookup clock one =
      ap (lookup route_id (item_id bad)) (good_routes clock one)
      ∙ ground (arith, ==_comm bad.route.name good.route.name)

  good_changed :
      (clock : ℕ)
      → d.updates ≡ good ∷ []
      → state_changed (plan clock node_id (internal_protocol_update d) state) ≡ true
  unfolding plan
  good_changed clock one =
      elim (Bool-cases (state_changed (plan clock node_id (internal_protocol_update d) state))) [
        | inl changed ↦ changed
        | inr idle ↦ absurd (
            some_none (
              sym (good_routes clock one)
              ∙ ap (λ (t : RouteTable). t.internal_routes)
                  (plan-unchanged clock node_id (internal_protocol_update d) state idle)
              ∙ empty))
      ]

-- What the policy leaves of the message.
filtered :
    (c : Config) (state : RouteTable) (d : ProtocolUpdate) (policy : RoutePolicy)
    (peer : PeerRecord) (bad good : UpdateItem)
    → c.route_policy ≡ some policy
    → find (named d.peer_info.name) state.peers ≡ some peer
    → d.updates ≡ bad ∷ good ∷ []
    → policy.can_receive peer (bad.route ∷ good.route ∷ []) ≡ good.route ∷ []
    → (bad.route.name == good.route.name) ≡ false
    → apply_inbound_policy c state (internal_protocol_update d)
      ≡ some (internal_protocol_update (record d { updates = good ∷ [] }))
unfolding apply_inbound_policy
filtered c state d policy peer bad good has_policy known both allowed apart =
    rw (has_policy, apply_inbound_policy, known, both, allowed)
      (ground (arith, ==_refl good.route.name, ==_comm bad.route.name good.route.name))

-- Without an allocator the table after a dispatch is the plan's, changed or not.
planned-table :
    (c : Config) (w : World) (action planned_action : Action) (bus : Bus)
    → bus.port_allocator ≡ none
    → (planned c w action (some planned_action) bus).0.rib.table
      ≡ new_state (plan w.clock c.node_name planned_action bus.rib.table)
unfolding unchanged complete commit plan_port_allocations
planned-table c w action planned_action bus no_pool =
    let p = plan w.clock c.node_name planned_action bus.rib.table in
    elim (Bool-cases (state_changed p)) [
      | inl changed ↦ rw (changed, complete, no_pool, plan_port_allocations)
      | inr idle ↦
          rw idle (sym (plan-unchanged w.clock c.node_name planned_action bus.rib.table idle))
    ]

-- What a dispatch that changes something writes.
planned-journal :
    (c : Config) (w : World) (action planned_action : Action) (bus : Bus) (log : ActionLog)
    → bus.port_allocator ≡ none
    → bus.rib.journal ≡ some log
    → state_changed (plan w.clock c.node_name planned_action bus.rib.table) ≡ true
    → (planned c w action (some planned_action) bus).0.rib.journal
      ≡ some (append log action c.node_name w.stamp).0
unfolding complete commit plan_port_allocations
planned-journal c w action planned_action bus log no_pool journal changed =
    rw (changed, complete, no_pool, plan_port_allocations) (rw (changed, journal))

-- A bus with a route policy and no port allocator, with a log from which recovery gives its table, one
-- with no internal route; and a message of a known peer: two advertisements of different names,
-- loop-free both, of which the policy lets the second pass alone. The dispatch leaves no route under
-- the key of the first; recovery from the log that it leaves installs it.
pub policy-bypassed :
    (c : Config) (w : World) (bus : Bus) (log : ActionLog) (now : ℕ) (d : ProtocolUpdate)
    (policy : RoutePolicy) (peer : PeerRecord) (bad good : UpdateItem)
    → c.route_policy ≡ some policy
    → bus.port_allocator ≡ none
    → bus.rib.journal ≡ some log
    → IsOrdered log
    → recover now c.node_name log ≡ bus.rib.table
    → bus.rib.table.internal_routes ≡ []
    → find (named d.peer_info.name) bus.rib.table.peers ≡ some peer
    → d.updates ≡ bad ∷ good ∷ []
    → (bad.action ≡ add) × (good.action ≡ add)
    → (includes bad.node_path c.node_name ≡ false) × (includes good.node_path c.node_name ≡ false)
    → (bad.route.name == good.route.name) ≡ false
    → policy.can_receive peer (bad.route ∷ good.route ∷ []) ≡ good.route ∷ []
    → (lookup route_id
          (item_id bad)
          (dispatch c w (internal_protocol_update d) bus).0.rib.table.internal_routes
        ≡ none)
      × (lookup route_id
            (item_id bad)
            (recover now c.node_name
              (log_of (dispatch c w (internal_protocol_update d) bus).0)).internal_routes
          ≡ some (advertised d.peer_info bad))
unfolding dispatch plan
policy-bypassed c w bus log now d policy peer bad good has_policy no_pool journal ordered recovered
      empty known both adds frees apart allowed =
    let table = bus.rib.table in
    let left : ProtocolUpdate = record d { updates = good ∷ [] } in
    let message = internal_protocol_update d in
    let passed = filtered c table d policy peer bad good has_policy known both allowed apart in
    let written =
      ap (λ f. (planned c w message f bus).0.rib.journal) passed
      ∙ planned-journal c w message (internal_protocol_update left) bus log no_pool journal (
          good_changed c.node_name left table bad good adds.0 adds.1 frees.0 frees.1 apart empty
            w.clock refl) in
    (
      ap (λ (t : RouteTable). lookup route_id (item_id bad) t.internal_routes)
            (ap (λ f. (planned c w message f bus).0.rib.table) passed
              ∙ planned-table c w message (internal_protocol_update left) bus no_pool)
          ∙ good_lookup c.node_name left table bad good adds.0 adds.1 frees.0 frees.1 apart empty
              w.clock refl,
      ap (λ (t : RouteTable). lookup route_id (item_id bad) t.internal_routes)
            (ap (λ j. recover now c.node_name (journal_log j)) written
              ∙ append-table now c.node_name log message w.stamp ordered
              ∙ ap (λ t. new_state (plan now c.node_name message t)) recovered)
          ∙ all_routes c.node_name d table bad good adds.0 adds.1 frees.0 frees.1 apart empty now
              both,
    )
