-- ===== src/Journal/Sqlite.antt =====
-- packages/routing/src/v2/journal/sqlite-action-log.ts: the log in a database. A statement is what
-- its SQL says of the two tables; `JSON.stringify` and `JSON.parse` are the argument `Json`.
use catalyst_router.Prelude.{
  ℕ, String, ◌+◌, ◌-◌, ◌≡◌, List, [], ◌∷◌, ◌++◌, Option, none, some, filter, length, ltb, leb, max,
  if◌then◌else◌,
}
use catalyst_router.Table.{RouteTable}
use catalyst_router.Action.{Action, action_type}
use catalyst_router.Journal.{Entry, Snapshot}
use catalyst_router.Journal.Interface.{LogApi}

-- Text for values; a text that does not parse throws.
pub record Json {ℓ} (A : Type ℓ) : Type ℓ where
  pub stringify : A → String
  pub parse : String → Option A

-- What is written of a value reads as the value.
abbrev pub Reads {ℓ} : {A : Type ℓ} → Json A → A → Type ℓ
Reads json a = json.parse (json.stringify a) ≡ some a

-- A row of `action_log`.
pub record Row : Type 0 where
  pub seq : ℕ
  pub recorded_at : String
  pub action : String
  pub payload : String
  pub node_id : String

-- The row of `snapshot`, whose `id` is 1.
pub record SnapshotRow : Type 0 where
  pub at_seq : ℕ
  pub state_json : String
  pub taken_at : String

-- `sequence` is the greatest number that AUTOINCREMENT has given.
pub record Database : Type 0 where
  pub action_log : List Row
  pub sequence : ℕ
  pub snapshot : Option SnapshotRow

unfoldable pub empty_database : Database
empty_database = record { action_log = []; sequence = 0; snapshot = none }

-- `ORDER BY seq ASC`
abbrev pub insert_row : Row → List Row → List Row
insert_row r [] = r ∷ []
insert_row r (q ∷ qs) =
    let rest = insert_row r qs in if leb r.seq q.seq then r ∷ q ∷ qs else q ∷ rest

abbrev pub order_by_seq : List Row → List Row
order_by_seq [] = []
order_by_seq (r ∷ rs) = insert_row r (order_by_seq rs)

-- `MAX(seq) ?? 0`
abbrev pub max_seq : List Row → ℕ
max_seq [] = 0
max_seq (r ∷ rs) = max r.seq (max_seq rs)

-- `strftime` is what the default of the columns, `strftime('%Y-%m-%dT%H:%M:%f', 'now')`, gives at a
-- time: the text that `toISOString` has, without the `Z`.
module _ (strftime : ℕ → String) (actions : Json Action) (tables : Json RouteTable) where
  unfoldable pub sql_append : Database → Action → String → ℕ → Database × ℕ
  sql_append db action node_id at = (
    record db {
      action_log =
          db.action_log
          ++ record {
            seq = db.sequence + 1;
            recorded_at = strftime at;
            action = action_type action;
            payload = actions.stringify action;
            node_id = node_id;
          }
            ∷ [];
      sequence = db.sequence + 1;
    },
    db.sequence + 1,
  )

  abbrev entry_of : Row → Option Action → Option Entry
  entry_of r none = none
  entry_of r (some action) =
      some
        (record { seq = r.seq; action = action; node_id = r.node_id; recorded_at = r.recorded_at })

  abbrev cons_entry : Option Entry → Option (List Entry) → Option (List Entry)
  cons_entry none es = none
  cons_entry (some e) none = none
  cons_entry (some e) (some es) = some (e ∷ es)

  -- `rows.map(…)`, which throws where a text does not parse.
  abbrev pub entries_of : List Row → Option (List Entry)
  entries_of [] = some []
  entries_of (r ∷ rs) = cons_entry (entry_of r (actions.parse r.payload)) (entries_of rs)

  unfoldable pub sql_replay : Database → ℕ → Option (List Entry)
  sql_replay db after = entries_of (order_by_seq (filter (λ r. ltb after r.seq) db.action_log))

  unfoldable pub sql_last_seq : Database → ℕ
  sql_last_seq db = max_seq db.action_log

  unfoldable pub sql_snapshot : Database → ℕ → RouteTable → ℕ → Database
  sql_snapshot db at_seq state at = record db {
    snapshot =
        some
          (record { at_seq = at_seq; state_json = tables.stringify state; taken_at = strftime at });
  }

  abbrev snapshot_of : SnapshotRow → Option RouteTable → Option (Option Snapshot)
  snapshot_of r none = none
  snapshot_of r (some state) =
      some (some (record { at_seq = r.at_seq; state = state; taken_at = r.taken_at }))

  abbrev read_snapshot : Option SnapshotRow → Option (Option Snapshot)
  read_snapshot none = some none
  read_snapshot (some r) = snapshot_of r (tables.parse r.state_json)

  unfoldable pub sql_get_snapshot : Database → Option (Option Snapshot)
  sql_get_snapshot db = read_snapshot db.snapshot

  -- `DELETE … WHERE seq < ?`, with the number of rows that it deletes.
  unfoldable pub sql_prune : Database → ℕ → Database × ℕ
  sql_prune db before =
      let kept = filter (λ r. leb before r.seq) db.action_log in
      (record db { action_log = kept }, length db.action_log - length kept)

  -- `SqliteActionLog`
  unfoldable pub sqlite_log : LogApi Database
  unfolding sql_append sql_replay sql_last_seq sql_snapshot sql_get_snapshot sql_prune
  sqlite_log = record {
    append_action = sql_append;
    replay_after = sql_replay;
    last_number = sql_last_seq;
    write_snapshot = sql_snapshot;
    get_snapshot = sql_get_snapshot;
    prune_before = sql_prune;
  }
