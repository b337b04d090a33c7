-- ===== src/Identity/Binding.antt =====
-- The checks of src/promiseguard/identity.py.
use promiseguard_ai.Prelude.{◌≡◌, ◌≢◌, ◌⊎◌, Bool-cases, Bool, false, none, some, arith, inl, inr}
use promiseguard_ai.Prelude.Text.{String, str_eq, eq_iff}
use promiseguard_ai.Prelude.Exec.{ok, err, identity_error}
use promiseguard_ai.Models.{UserRole}
use promiseguard_ai.Identity.{
  bind_claimed_role, registered_role, identity_directory, assert_separation_of_duties,
}

-- A binding that returns gives the claimed role; the directory has that role for the actor, or
-- has no such actor and the check is not strict.
pub bind_claimed_role-registered :
    (strict : Bool) (actor : String) (claimed : UserRole) {role : UserRole}
    → bind_claimed_role strict actor claimed ≡ ok role
    → (role ≡ claimed)
      × ((registered_role actor identity_directory ≡ some claimed)
          ⊎ ((registered_role actor identity_directory ≡ none) × (strict ≡ false)))
unfolding bind_claimed_role
bind_claimed_role-registered strict actor claimed {role} h = ground arith

-- Two actors are told apart, or the check raises.
pub separation :
    (a b : String)
    → (a ≢ b) ⊎ ((text : String) × (assert_separation_of_duties a b ≡ err identity_error text))
unfolding assert_separation_of_duties
separation a b = elim (Bool-cases (str_eq a b)) [
  | inl same ↦ inr ("requester cannot approve or reject their own request", ground arith)
  | inr apart ↦ inl (λ e. absurd (ground (arith, (eq_iff a b).1 e)))
]
