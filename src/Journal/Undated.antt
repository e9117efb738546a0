-- ===== src/Journal/Undated.antt =====
-- The log in memory without the texts of its times.
use catalyst_router.Prelude.{
  ℕ, String, Bool, ◌≡◌, refl, ap, ◌∙◌, List, [], ◌∷◌, some, map, map-append, arith, filter, ltb,
  leb, length,
}
use catalyst_router.Journal.{
  Entry, ActionLog, append, replay, last_of, last_seq, take_snapshot, prune,
}
use catalyst_router.Journal.Interface.{
  undated_entry, undated_snapshot, undated, memory_log, LogCall, LogAnswer, log_call, log_answers,
  call_append, call_replay, call_last_seq, call_snapshot, call_get_snapshot, call_prune, a_number,
  some_entries,
}

-- The texts of the times have no other effect on the log in memory.
abbrev pub undated_log : ActionLog → ActionLog
undated_log log = record {
  entries = map undated_entry log.entries;
  next_seq = log.next_seq;
  snapshot = undated_snapshot log.snapshot;
}

filter-undated :
    (p : ℕ → Bool) (es : List Entry)
    → filter (λ e. p e.seq) (map undated_entry es) ≡ map undated_entry (filter (λ e. p e.seq) es)
filter-undated p [] = refl
filter-undated p (e ∷ es) = ground (arith, filter-undated p es)

length-undated : (es : List Entry) → length (map undated_entry es) ≡ length es
length-undated [] = refl
length-undated (e ∷ es) = omega (arith, length-undated es)

last_of-undated : (es : List Entry) → last_of (map undated_entry es) ≡ last_of es
last_of-undated [] = refl
last_of-undated (e ∷ []) = refl
last_of-undated (e ∷ d ∷ es) = last_of-undated (d ∷ es)

module _ (stamp : ℕ → String) where
  log_call-undated :
      (k : LogCall) (log : ActionLog)
      → log_call (memory_log (λ at. "")) k (undated_log log) ≡ (
        undated_log (log_call (memory_log stamp) k log).0,
        undated (log_call (memory_log stamp) k log).1,
      )
  unfolding append replay take_snapshot prune last_seq
  log_call-undated (call_append action node_id at) log =
      rw
        (map-append undated_entry log.entries (
          record { seq = log.next_seq; action = action; node_id = node_id; recorded_at = stamp at }
          ∷ []))
        refl
  log_call-undated (call_replay after) log =
      ap (λ es. (undated_log log, some_entries (some es)))
        (filter-undated (λ n. ltb after n) log.entries)
  log_call-undated call_last_seq log =
      ap (λ n. (undated_log log, a_number n)) (last_of-undated log.entries)
  log_call-undated (call_snapshot at_seq state at) log = refl
  log_call-undated call_get_snapshot log = refl
  log_call-undated (call_prune before) log =
      rw
        (
          filter-undated (λ n. leb before n) log.entries,
          length-undated log.entries,
          length-undated (filter (λ e. leb before e.seq) log.entries),
        )
        refl

  pub log_answers-undated :
      (ks : List LogCall) (log : ActionLog)
      → log_answers (memory_log (λ at. "")) ks (undated_log log)
        ≡ map undated (log_answers (memory_log stamp) ks log)
  log_answers-undated [] log = refl
  log_answers-undated (k ∷ ks) log =
      ap (λ (out : ActionLog × LogAnswer). out.1 ∷ log_answers (memory_log (λ at. "")) ks out.0)
        (log_call-undated k log)
      ∙ ap (◌∷◌ (undated (log_call (memory_log stamp) k log).1))
          (log_answers-undated ks (log_call (memory_log stamp) k log).0)
