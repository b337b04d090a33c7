-- ===== src/Prelude/Exec.antt =====
-- A method that changes an object and may raise. What was written before a raise stays written, so
-- the state comes back beside the exception too. The exceptions are the program's classes and the
-- builtin ones that its code raises; `text` is the message.
use mathlib.Core.Bool.{Bool}
use mathlib.Core.Option.{Option, none, some}
use mathlib.Core.Path.{◌≡◌, refl}
use mathlib.Core.Logic.{◌⊎◌, inl, inr}
use promiseguard_ai.Prelude.Text.{String}
use promiseguard_ai.Prelude.Tests.{if◌then◌else◌}

pub data ErrorKind : Type 0 where
  action_execution_error adapter_timeout ambiguous_provider_timeout : ErrorKind
  adapter_rate_limited malformed_adapter_response adapter_auth_error : ErrorKind
  persistence_conflict_error record_not_found_error ledger_conflict_error : ErrorKind
  approval_error identity_error autonomy_control_error workflow_error : ErrorKind
  budget_exceeded_error per_run_limit_error budget_configuration_error : ErrorKind
  run_not_found_error unknown_model_pricing_error : ErrorKind
  open_ai_agent_unavailable_error agent_output_validation_error : ErrorKind
  open_ai_response_error : ErrorKind
  value_error key_error stop_iteration integrity_error assertion_error : ErrorKind

pub data Result {ℓ} (A : Type ℓ) : Type ℓ where
  ok : A → Result A
  err : ErrorKind → String → Result A

abbrev pub Exec : Type 0 → Type 0 → Type 0
Exec S A = S → Result A × S

module _ {S A : Type 0} where
  abbrev pub pure : A → Exec S A
  pure a s = (ok a, s)

  abbrev pub raise : ErrorKind → String → Exec S A
  raise k text s = (err k text, s)

  abbrev pub gets : (S → A) → Exec S A
  gets f s = (ok (f s), s)

  abbrev pub lift : Result A → Exec S A
  lift r s = (r, s)

  abbrev pub or_raise : Option A → ErrorKind → String → Exec S A
  or_raise none k text = raise k text
  or_raise (some a) k text = pure a

infixl 5 ◌>>=◌ ◌>>◌
abbrev pub ◌>>=◌ : {S A B : Type 0} → Exec S A → (A → Exec S B) → Exec S B
◌>>=◌ m f s = let (r, s') = m s in elim r [ ok a ↦ f a s' | err k t ↦ (err k t, s') ]

abbrev pub ◌>>◌ : {S A B : Type 0} → Exec S A → Exec S B → Exec S B
m >> k = m >>= λ _. k

module _ {S : Type 0} where
  abbrev pub raise_if : Bool → ErrorKind → String → Exec S (Unit {0})
  raise_if c k text s = (if c then err k text else ok tt, s)

  abbrev pub modify : (S → S) → Exec S (Unit {0})
  modify f s = (ok tt, f s)

pub Result-cases {ℓ} :
    {A : Type ℓ} (r : Result A)
    → ((a : A) × (r ≡ ok a)) ⊎ ((k : ErrorKind) × (text : String) × (r ≡ err k text))
Result-cases (ok a) = inl (a, refl)
Result-cases (err k text) = inr (k, text, refl)

-- The two ways in which a method ends.
pub Exec-cases :
    {S A : Type 0} (x : Result A × S)
    → ((a : A) × (s : S) × (x ≡ (ok a, s)))
      ⊎ ((k : ErrorKind) × (text : String) × (s : S) × (x ≡ (err k text, s)))
Exec-cases (ok a, s) = inl (a, s, refl)
Exec-cases (err k text, s) = inr (k, text, s, refl)
