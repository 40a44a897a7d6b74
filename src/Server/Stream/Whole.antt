-- ===== src/Server/Stream/Whole.antt =====
-- What a stream sends in all.
use mathlib.Core.List.{append_assoc, map-append}
use flowz.Prelude.{
  ℕ, zero, suc, ◌+◌, ◌<◌, Str, Bool, true, false, if◌then◌else◌, Option, none, some, Bool-cases,
  inl, inr, List, [], ◌∷◌, ◌++◌, map, append_nil, ◌≡◌, refl, ap, sym, subst, ◌∙◌, arith,
}
use flowz.Store.Tables.{LogLine, Db}
use flowz.Store.Logs.{get_logs_from}
use flowz.Store.Logs.Stream.{IdsGrow, last_after, get_logs_from_twice}
use flowz.Server.Stream.{done, log_event, run_done, read_run, stream_from, stream_logs}

-- The second database has the lines of the first, and others behind them.
abbrev pub Extends : Db → Db → Type 0
Extends db db' = (new : List LogLine) × (db'.log_lines ≡ db.log_lines ++ new)

Extends-trans : (a b c : Db) → Extends a b → Extends b c → Extends a c
Extends-trans a b c (new, e) (newer, f) =
    (new ++ newer, f ∙ (ap (λ ls. ls ++ newer) e ∙ append_assoc a.log_lines new newer))

-- `dbs k` is the database at the read of the lines in round k, which fails unless `answered k`.
module _ (dbs : ℕ → Db) (answered : ℕ → Bool) (runs : ℕ → Option Db) (run_id : Str) where
  abbrev pub reads : ℕ → Option Db
  reads k = if answered k then some (dbs k) else none

  -- From round k on, the run is done at the read of round k + n, and not before; and in that round the
  -- lines can be read.
  abbrev pub EndsAfter : ℕ → ℕ → Type 0
  EndsAfter k zero = (run_done (read_run run_id (runs k)) ≡ true) × (answered k ≡ true)
  EndsAfter k (suc n) = (run_done (read_run run_id (runs k)) ≡ false) × EndsAfter (suc k) n

  abbrev later : ℕ → ℕ → Db
  later k zero = dbs k
  later k (suc n) = later (suc k) n

  later-dbs : (k n m : ℕ) → m ≡ k + n → later k n ≡ dbs m
  later-dbs k zero m e = ap dbs (omega arith)
  later-dbs k (suc n) m e = later-dbs (suc k) n m (omega arith)

  module _ (grows : (k : ℕ) → Extends (dbs k) (dbs (suc k))) (ids : (k : ℕ) → IdsGrow (dbs k)) where
    later-Extends : (k n : ℕ) → Extends (dbs k) (later k n)
    later-Extends k zero = ([], sym (append_nil (dbs k).log_lines))
    later-Extends k (suc n) =
        Extends-trans (dbs k) (dbs (suc k)) (later (suc k) n) (grows k) (later-Extends (suc k) n)

    -- The lines of a round, and then those behind them.
    in_turn :
        (n k last_id : ℕ)
        → let rows = get_logs_from (dbs k) run_id last_id in
          map log_event rows
            ++ (map log_event (get_logs_from (later (suc k) n) run_id (last_after last_id rows))
                ++ done ∷ [])
          ≡ map log_event (get_logs_from (later (suc k) n) run_id last_id) ++ done ∷ []
    in_turn n k last_id =
        let rows = get_logs_from (dbs k) run_id last_id in
        let db = later (suc k) n in
        let last = last_after last_id rows in
        let (new, extended) = later-Extends k (suc n) in
        sym (
          append_assoc (map log_event rows) (map log_event (get_logs_from db run_id last))
            (done ∷ []))
        ∙ ap (λ es. es ++ done ∷ [])
            (sym (map-append log_event rows (get_logs_from db run_id last))
              ∙ ap (map log_event) (
                  get_logs_from_twice run_id last_id (dbs k) db new
                    (subst IdsGrow (sym (later-dbs (suc k) n (suc k + n) refl)) (ids (suc k + n)))
                    extended))

    stream_from-whole :
        (n fuel k last_id : ℕ)
        → n < fuel
        → EndsAfter k n
        → stream_from reads runs run_id fuel k last_id
          ≡ map log_event (get_logs_from (later k n) run_id last_id) ++ done ∷ []
    unfolding stream_from last_after
    stream_from-whole n zero k last_id h e = absurd (omega arith)
    stream_from-whole zero (suc fuel) k last_id h (e, on) = rw (e, on) refl
    stream_from-whole (suc n) (suc fuel) k last_id h (more, e) = elim (Bool-cases (answered k)) [
      | inl on ↦
          let rows = get_logs_from (dbs k) run_id last_id in
          rw (on, more, stream_from-whole n fuel (suc k) (last_after last_id rows) (omega arith) e)
            (in_turn n k last_id)
      | inr off ↦ rw (off, more) (stream_from-whole n fuel (suc k) last_id (omega arith) e)
    ]

    -- A stream sends the log as it is at the last read of lines, each line once and in order, however
    -- many reads there were and whichever before the last failed, and then the end. It needs one round
    -- more than those after which the run was not done. The lines that were there stay, the ids of the
    -- lines grow, and new lines stand behind the others.
    pub stream_logs-whole :
        (n fuel : ℕ)
        → n < fuel
        → EndsAfter 0 n
        → stream_logs reads runs run_id fuel
          ≡ map log_event (get_logs_from (dbs n) run_id 0) ++ done ∷ []
    unfolding stream_logs
    stream_logs-whole n fuel h e =
        stream_from-whole n fuel 0 0 h e
        ∙ ap (λ db. map log_event (get_logs_from db run_id 0) ++ done ∷ [])
            (later-dbs 0 n n (omega arith))
