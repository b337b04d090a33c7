-- ===== src/Ledger.antt =====
-- src/promiseguard/ledger.py: the decision ledger in memory and over the database.
pub mod Immutable
pub mod Agreement
mod Tests
use promiseguard_ai.Prelude.{
  ℕ, Bool, true, false, not, Option, none, some, List, [], ◌∷◌, ◌++◌, find, length, if◌then◌else◌,
}
use promiseguard_ai.Prelude.Text.{String, str_eq}
use promiseguard_ai.Prelude.Exec.{
  Result, ok, err, Exec, persistence_conflict_error, ledger_conflict_error, key_error,
}
use promiseguard_ai.Models.{DecisionTrace}
use promiseguard_ai.Codec.{Codec, canonical_fingerprint}
use promiseguard_ai.Database.{Db, session}
use promiseguard_ai.Persistence.{record_decision, get_decision}

abbrev pub Dict : Type 0 → Type 0
Dict V = List (String × V)

-- `d.get(key)`
abbrev pub lookup : {V : Type 0} → String → Dict V → Option V
lookup k [] = none
lookup k ((j, v) ∷ d) = if str_eq j k then some v else lookup k d

-- `InMemoryDecisionLedger`
pub record InMemoryDecisionLedger : Type 0 where
  pub records : Dict DecisionTrace
  pub fingerprints : Dict String

abbrev pub empty_ledger : InMemoryDecisionLedger
empty_ledger = record { records = []; fingerprints = [] }

abbrev pub conflict_text : String
conflict_text = "decision replay conflicts with the immutable ledger record"

-- Its `record`. The two dictionaries get a key together, which is then new in both.
unfoldable pub memory_record : Codec → DecisionTrace → Exec InMemoryDecisionLedger DecisionTrace
memory_record c trace m =
    let fingerprint = canonical_fingerprint c (c.trace_json trace) in
    elim (lookup trace.decision_id m.records) [
      | none ↦ (
        ok trace,
        record {
          records = m.records ++ (trace.decision_id, trace) ∷ [];
          fingerprints = m.fingerprints ++ (trace.decision_id, fingerprint) ∷ [];
        },
      )
      | some existing ↦ elim (lookup trace.decision_id m.fingerprints) [
        | none ↦ (err key_error trace.decision_id, m)
        | some known ↦
            if str_eq known fingerprint
            then (ok existing, m)
            else (err ledger_conflict_error conflict_text, m)
      ]
    ]

unfoldable pub memory_get : String → InMemoryDecisionLedger → Option DecisionTrace
memory_get decision_id m = lookup decision_id m.records

unfoldable pub memory_count : InMemoryDecisionLedger → ℕ
memory_count m = length m.records

-- `except PersistenceConflictError as exc: raise LedgerConflictError(str(exc)) from exc`
abbrev pub as_ledger_conflict : Result DecisionTrace → Result DecisionTrace
as_ledger_conflict (ok t) = ok t
as_ledger_conflict (err persistence_conflict_error text) = err ledger_conflict_error text
as_ledger_conflict (err k text) = err k text

-- `SqlDecisionLedger.record`
unfoldable pub sql_record : Codec → DecisionTrace → Exec Db DecisionTrace
unfolding record_decision
sql_record c trace db =
    let (r, db') = session (record_decision c trace) db in (as_ledger_conflict r, db')

unfoldable pub sql_count : Db → ℕ
sql_count db = length db.decisions
