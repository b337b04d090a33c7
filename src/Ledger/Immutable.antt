-- ===== src/Ledger/Immutable.antt =====
-- Recording and finding in the database ledger of src/promiseguard/ledger.py.
use promiseguard_ai.Prelude.{◌≡◌, some, arith, find-append}
use promiseguard_ai.Prelude.Text.{String, str_eq, str_eq_refl}
use promiseguard_ai.Prelude.Exec.{ok}
use promiseguard_ai.Models.{DecisionTrace}
use promiseguard_ai.Codec.{Codec}
use promiseguard_ai.Database.{Db, DecisionRow}
use promiseguard_ai.Persistence.{get_decision, decision_row}
use promiseguard_ai.Ledger.{sql_record}

module _ (c : Codec) (t : DecisionTrace) (db : Db) where
  -- A decision that the database ledger has is found under its identifier, unchanged, after
  -- any recording.
  pub get-sql_record :
      (id : String) {old : DecisionTrace}
      → get_decision id db ≡ some old
      → get_decision id (sql_record c t db).1 ≡ some old
  unfolding get_decision sql_record
  get-sql_record id {old} h = ground (
    arith,
    find-append (λ (r : DecisionRow). str_eq r.decision_id id) db.decisions (decision_row c t),
  )

  -- What is recorded without a conflict is found under its identifier.
  pub get-sql_record_self :
      {stored : DecisionTrace}
      → (sql_record c t db).0 ≡ ok stored
      → get_decision t.decision_id (sql_record c t db).1 ≡ some stored
  unfolding get_decision sql_record
  get-sql_record_self {stored} h = ground (
    arith,
    str_eq_refl t.decision_id,
    find-append (λ (r : DecisionRow). str_eq r.decision_id t.decision_id) db.decisions
        (decision_row c t),
  )

-- A recording that returned, made again, returns the same stored trace and changes nothing.
pub sql_record_again :
    (c : Codec) (t : DecisionTrace) (db : Db) {stored : DecisionTrace}
    → (sql_record c t db).0 ≡ ok stored
    → sql_record c t (sql_record c t db).1 ≡ (ok stored, (sql_record c t db).1)
unfolding sql_record
sql_record_again c t db {stored} h = ground (
  arith,
  str_eq_refl t.decision_id,
  str_eq_refl (decision_row c t).fingerprint,
  find-append (λ (r : DecisionRow). str_eq r.decision_id t.decision_id) db.decisions
      (decision_row c t),
)
