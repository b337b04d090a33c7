-- ===== src/Ledger/Agreement.antt =====
-- The two clients of src/promiseguard/ledger.py side by side.
use promiseguard_ai.Prelude.{
  suc, ◌≡◌, refl, ap, Bool, Option, none, some, List, ◌∷◌, [], ◌++◌, map, arith, find, length,
  Option-cases, inl, inr,
}
use promiseguard_ai.Prelude.Text.{String, str_eq}
use promiseguard_ai.Prelude.Exec.{Result, Exec}
use promiseguard_ai.Models.{DecisionTrace}
use promiseguard_ai.Codec.{Codec}
use promiseguard_ai.Database.{Db, DecisionRow}
use promiseguard_ai.Persistence.{get_decision, decision_row}
use promiseguard_ai.Ledger.{
  InMemoryDecisionLedger, lookup, memory_record, memory_get, memory_count, sql_record, sql_count,
}

abbrev trace_entry : DecisionRow → String × DecisionTrace
trace_entry r = (r.decision_id, r.trace)

abbrev fingerprint_entry : DecisionRow → String × String
fingerprint_entry r = (r.decision_id, r.fingerprint)

-- The dictionaries are the columns of the table.
pub record Agrees (m : InMemoryDecisionLedger) (db : Db) : Type 0 where
  pub traces : m.records ≡ map trace_entry db.decisions
  pub prints : m.fingerprints ≡ map fingerprint_entry db.decisions

abbrev column : {V : Type 0} → (DecisionRow → V) → Option DecisionRow → Option V
column f none = none
column f (some r) = some (f r)

abbrev has_id : String → DecisionRow → Bool
has_id id r = str_eq r.decision_id id

lookup-map :
    {V : Type 0} (f : DecisionRow → V) (id : String) (rows : List DecisionRow)
    → lookup id (map (λ r. (r.decision_id, f r)) rows) ≡ column f (find (has_id id) rows)
lookup-map f id [] = refl
lookup-map f id (r ∷ rows) = ground (arith, lookup-map f id rows)

length-map :
    {V : Type 0} (f : DecisionRow → V) (rows : List DecisionRow) → length (map f rows) ≡ length rows
length-map f [] = refl
length-map f (r ∷ rows) = ap suc (length-map f rows)

map_snoc :
    {V : Type 0} (f : DecisionRow → V) (r : DecisionRow) (rows : List DecisionRow)
    → map f (rows ++ r ∷ []) ≡ map f rows ++ f r ∷ []
map_snoc f r [] = refl
map_snoc f r (x ∷ rows) = ap (◌∷◌ (f x)) (map_snoc f r rows)

module _ (m : InMemoryDecisionLedger) (db : Db) (h : Agrees m db) where
  find_trace :
      (id : String) → lookup id m.records ≡ column (λ r. r.trace) (find (has_id id) db.decisions)
  find_trace id = rw h.traces (lookup-map (λ r. r.trace) id db.decisions)

  find_print :
      (id : String)
      → lookup id m.fingerprints ≡ column (λ r. r.fingerprint) (find (has_id id) db.decisions)
  find_print id = rw h.prints (lookup-map (λ r. r.fingerprint) id db.decisions)

  -- A lookup in ledgers that agree gives the same decision.
  pub memory_get-eq-get_decision : (id : String) → memory_get id m ≡ get_decision id db
  unfolding memory_get get_decision
  memory_get-eq-get_decision id = ground (arith, find_trace id)

  -- They count as many.
  pub memory_count-eq-sql_count : memory_count m ≡ sql_count db
  unfolding memory_count sql_count
  memory_count-eq-sql_count = rw h.traces (length-map trace_entry db.decisions)

  module _ (c : Codec) (t : DecisionTrace) where
    -- One record gives both clients the same result, a replay and a conflict included, and leaves
    -- the two ledgers in agreement.
    pub record-Agrees :
        ((memory_record c t m).0 ≡ (sql_record c t db).0)
        × Agrees (memory_record c t m).1 (sql_record c t db).1
    unfolding memory_record sql_record
    record-Agrees = elim (Option-cases (find (has_id t.decision_id) db.decisions)) [
      | inl new ↦ (
        ground (arith, find_trace t.decision_id),
        record {
          traces = ground (
            arith,
            h.traces,
            find_trace t.decision_id,
            map_snoc trace_entry (decision_row c t) db.decisions,
          );
          prints = ground (
            arith,
            h.prints,
            find_trace t.decision_id,
            map_snoc fingerprint_entry (decision_row c t) db.decisions,
          );
        },
      )
      | inr (r, found) ↦ (
        ground (arith, find_trace t.decision_id, find_print t.decision_id),
        record {
          traces = ground (arith, h.traces, find_trace t.decision_id, find_print t.decision_id);
          prints = ground (arith, h.prints, find_trace t.decision_id, find_print t.decision_id);
        },
      )
    ]

-- A sequence of records, each with its result; a client goes on after an exception.
abbrev pub record_all :
    {S : Type 0}
    → (DecisionTrace → Exec S DecisionTrace)
    → List DecisionTrace
    → S
    → List (Result DecisionTrace) × S
record_all step [] s = ([], s)
record_all step (t ∷ ts) s =
    let (r, s') = step t s in let (rs, end) = record_all step ts s' in (r ∷ rs, end)

-- From ledgers that agree, any sequence of recordings has the same results in memory and in the
-- database, and leaves the ledgers in agreement.
pub record_all-Agrees :
    (c : Codec) (ts : List DecisionTrace) (m : InMemoryDecisionLedger) (db : Db)
    → Agrees m db
    → ((record_all (memory_record c) ts m).0 ≡ (record_all (sql_record c) ts db).0)
      × Agrees (record_all (memory_record c) ts m).1 (record_all (sql_record c) ts db).1
record_all-Agrees c [] m db h = (refl, h)
record_all-Agrees c (t ∷ ts) m db h =
    let (same, next) = record-Agrees m db h c t in
    let (rest, end) = record_all-Agrees c ts (memory_record c t m).1 (sql_record c t db).1 next in
    (cc, end)
