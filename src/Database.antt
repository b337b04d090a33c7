-- ===== src/Database.antt =====
-- The tables of src/promiseguard/db_models.py and the session of src/promiseguard/database.py. A
-- table is the list of its rows in the order of insertion; a column that holds an enumeration or a
-- JSON document holds the value itself. Foreign keys are not enforced.
mod Rows
pub use Rows.*
use promiseguard_ai.Prelude.{
  ◌≡◌, refl, arith, Bool, true, false, List, [], ◌∷◌, ◌++◌, any, if◌then◌else◌,
}
use promiseguard_ai.Prelude.Exec.{Result, ok, err, Exec, integrity_error}

-- `with database.session() as session`: what the block wrote is committed if it returns, and rolled
-- back if it raises.
abbrev pub session : {S A : Type 0} → Exec S A → Exec S A
session block db =
    let (r, db') = block db in elim r [ ok a ↦ (ok a, db') | err k t ↦ (err k t, db) ]

-- A row to be inserted, after the check of a primary key or unique constraint.
abbrev pub insert_row : {R : Type 0} → (R → Bool) → R → List R → Result (List R)
insert_row clashes row table =
    if any clashes table
    then err integrity_error "UNIQUE constraint failed"
    else ok (table ++ row ∷ [])

abbrev closed : {S A : Type 0} → S → Result A × S → Result A × S
closed s (ok a, s') = (ok a, s')
closed s (err k t, s') = (err k t, s)

closed-keeps :
    {S A : Type 0} (P : S → Type 0) (s : S) (x y : Result A × S)
    → x ≡ y
    → P s
    → ((a : A) (s' : S) → x ≡ (ok a, s') → P s')
    → P (closed s y).1
closed-keeps P s x (ok a, s') e h k = k a s' e
closed-keeps P s x (err c t, s') e h k = h

session-eq-closed : {S A : Type 0} (block : Exec S A) (s : S) → session block s ≡ closed s (block s)
session-eq-closed block s = ground arith

-- A property that holds before a session holds after it, if a block that returns keeps it.
pub session-keeps :
    {S A : Type 0} (P : S → Type 0) (block : Exec S A) (s : S)
    → P s
    → ((a : A) (s' : S) → block s ≡ (ok a, s') → P s')
    → P (session block s).1
session-keeps P block s h k =
    rw (session-eq-closed block s) (closed-keeps P s (block s) (block s) refl h k)
