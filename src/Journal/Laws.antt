-- ===== src/Journal/Laws.antt =====
-- What the log promises: entries in ascending order, numbers never used twice, and a replay that
-- pruning below its start leaves alone.
use catalyst_router.Prelude.{
  ℕ, String, Bool, true, ◌+◌, ◌≤◌, ◌<◌, ◌≡◌, refl, List, [], ◌∷◌, ◌++◌, none, some, Option, arith,
  filter, ltb, leb, All, All-append, All-filter,
}
use catalyst_router.Table.{RouteTable}
use catalyst_router.Action.{Action}
use catalyst_router.Journal.{
  Entry, ActionLog, empty_log, append, replay, last_of, last_seq, take_snapshot, prune, Snapshot,
}

-- The numbers ascend from above `lo`.
abbrev pub Ascends : ℕ → List Entry → Type 0
Ascends lo [] = Unit
Ascends lo (e ∷ es) = (lo < e.seq) × Ascends e.seq es

abbrev snapshot_seq : Option Snapshot → ℕ
snapshot_seq none = 0
snapshot_seq (some s) = s.at_seq

pub record IsOrdered (log : ActionLog) : Type 0 where
  pub ascending : Ascends 0 log.entries
  pub below : All (λ e. e.seq < log.next_seq) log.entries
  pub positive : 0 < log.next_seq
  pub covered : snapshot_seq log.snapshot < log.next_seq

pub Ascends-mono : {lo hi : ℕ} (es : List Entry) → lo ≤ hi → Ascends hi es → Ascends lo es
Ascends-mono [] h a = tt
Ascends-mono (e ∷ es) h a = (omega arith, a.1)

pub Ascends-filter :
    (p : Entry → Bool) (lo : ℕ) (es : List Entry) → Ascends lo es → Ascends lo (filter p es)
Ascends-filter p lo [] a = tt
Ascends-filter p lo (e ∷ es) a =
    ground (arith, Ascends-filter p e.seq es a.1, Ascends-mono {lo = lo} {hi = e.seq} (filter p es))

pub Ascends-push :
    (lo n : ℕ) (es : List Entry) (e : Entry)
    → Ascends lo es
    → All (λ d. d.seq < n) es
    → lo < n
    → e.seq ≡ n
    → Ascends lo (es ++ e ∷ [])
Ascends-push lo n [] e a b h s = (omega arith, tt)
Ascends-push lo n (d ∷ es) e a b h s = (a.0, Ascends-push d.seq n es e a.1 b.1 b.0 s)

pub All-seq_mono :
    {m n : ℕ} (es : List Entry) → m ≤ n → All (λ e. e.seq < m) es → All (λ e. e.seq < n) es
All-seq_mono [] h a = tt
All-seq_mono {m} {n} (e ∷ es) h a = (omega arith, All-seq_mono {m = m} {n = n} es h a.1)

-- The last number is the greatest.
pub last_of-max : (lo : ℕ) (es : List Entry) → Ascends lo es → All (λ e. e.seq ≤ last_of es) es
last_of-max lo [] a = tt
last_of-max lo (e ∷ []) a = (omega arith, tt)
last_of-max lo (e ∷ d ∷ es) a = let rest = last_of-max e.seq (d ∷ es) a.1 in (omega arith, rest)

pub last_of-lt : (n : ℕ) (es : List Entry) → 0 < n → All (λ e. e.seq < n) es → last_of es < n
last_of-lt n [] h a = h
last_of-lt n (e ∷ []) h a = a.0
last_of-lt n (e ∷ d ∷ es) h a = last_of-lt n (d ∷ es) h a.1

pub empty_log-IsOrdered : IsOrdered empty_log
unfolding empty_log
empty_log-IsOrdered = record {
  ascending = tt;
  below = tt;
  positive = omega arith;
  covered = omega arith;
}

pub append-IsOrdered :
    (log : ActionLog) (action : Action) (node_id stamp : String)
    → IsOrdered log
    → IsOrdered (append log action node_id stamp).0
unfolding append
append-IsOrdered log action node_id stamp o = record {
  ascending = Ascends-push 0 log.next_seq log.entries _ o.ascending o.below o.positive refl;
  below =
      All-append (λ e. e.seq < log.next_seq + 1) log.entries _
        (All-seq_mono {m = log.next_seq} {n = log.next_seq + 1} log.entries (omega arith) o.below)
        (omega arith, tt);
  positive = omega arith;
  covered = omega (arith, o.covered);
}

pub take_snapshot-IsOrdered :
    (log : ActionLog) (state : RouteTable) (stamp : String)
    → IsOrdered log
    → IsOrdered (take_snapshot log (last_seq log) state stamp)
unfolding take_snapshot last_seq
take_snapshot-IsOrdered log state stamp o = record {
  ascending = o.ascending;
  below = o.below;
  positive = o.positive;
  covered = last_of-lt log.next_seq log.entries o.positive o.below;
}

pub prune-IsOrdered :
    (log : ActionLog) (before_seq : ℕ) → IsOrdered log → IsOrdered (prune log before_seq).0
unfolding prune
prune-IsOrdered log before_seq o = record {
  ascending = Ascends-filter (λ e. leb before_seq e.seq) 0 log.entries o.ascending;
  below = All-filter (λ e. e.seq < log.next_seq) (λ e. leb before_seq e.seq) log.entries o.below;
  positive = o.positive;
  covered = o.covered;
}

filter-filter :
    (before after : ℕ) (es : List Entry)
    → before ≤ after + 1
    → filter (λ e. ltb after e.seq) (filter (λ e. leb before e.seq) es)
      ≡ filter (λ e. ltb after e.seq) es
filter-filter before after [] h = refl
filter-filter before after (e ∷ es) h = ground (arith, filter-filter before after es h)

-- To prune below the start of a replay leaves the replay as it was.
pub replay-prune :
    (log : ActionLog) (before after : ℕ)
    → before ≤ after + 1
    → replay (prune log before).0 after ≡ replay log after
unfolding replay prune
replay-prune log before after h = filter-filter before after log.entries h

filter_none :
    (after : ℕ) (es : List Entry)
    → All (λ e. e.seq ≤ after) es
    → filter (λ e. ltb after e.seq) es ≡ []
filter_none after [] a = refl
filter_none after (e ∷ es) a = ground (arith, filter_none after es a.1)

-- Nothing comes after the last number.
pub replay-last_seq : (log : ActionLog) → IsOrdered log → replay log (last_seq log) ≡ []
unfolding replay last_seq
replay-last_seq log o =
    filter_none (last_of log.entries) log.entries (last_of-max 0 log.entries o.ascending)

filter-push :
    (p : Entry → Bool) (es : List Entry) (e : Entry)
    → p e ≡ true
    → filter p (es ++ e ∷ []) ≡ filter p es ++ e ∷ []
filter-push p [] e h = ground arith
filter-push p (d ∷ es) e h = ground (arith, filter-push p es e h)

-- A new entry is the last of every replay that starts below its number.
pub replay-append :
    (log : ActionLog) (action : Action) (node_id stamp : String) (after : ℕ)
    → after < log.next_seq
    → replay (append log action node_id stamp).0 after
      ≡ replay log after
        ++ record { seq = log.next_seq; action = action; node_id = node_id; recorded_at = stamp }
          ∷ []
unfolding replay append
replay-append log action node_id stamp after h =
    filter-push (λ e. ltb after e.seq) log.entries _ (ground arith)

-- A snapshot and a new entry leave what a replay reads of the other.
pub replay-take_snapshot :
    (log : ActionLog) (at after : ℕ) (state : RouteTable) (stamp : String)
    → replay (take_snapshot log at state stamp) after ≡ replay log after
unfolding replay take_snapshot
replay-take_snapshot log at after state stamp = refl

pub append-snapshot :
    (log : ActionLog) (action : Action) (node_id stamp : String)
    → (append log action node_id stamp).0.snapshot ≡ log.snapshot
unfolding append
append-snapshot log action node_id stamp = refl

pub prune-snapshot :
    (log : ActionLog) (at : ℕ) (state : RouteTable) (stamp : String) (before : ℕ)
    → (prune (take_snapshot log at state stamp) before).0.snapshot
      ≡ some (record { at_seq = at; state = state; taken_at = stamp })
unfolding prune take_snapshot
prune-snapshot log at state stamp before = refl
