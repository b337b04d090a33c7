-- ===== src/Identity.antt =====
-- src/promiseguard/identity.py: the local directory of actors, the binding of a claimed role, and the
-- separation of duties.
pub mod Binding
mod Tests
use promiseguard_ai.Prelude.{Bool, true, false, Option, none, some, List, [], ◌∷◌, if◌then◌else◌}
use promiseguard_ai.Prelude.Text.{String, str_eq, concat}
use promiseguard_ai.Prelude.Exec.{Result, ok, err, identity_error}
use promiseguard_ai.Models.{UserRole, is_role, role_value}

-- `LOCAL_IDENTITY_DIRECTORY`
abbrev pub identity_directory : List (String × UserRole)
identity_directory =
    ("operations-manager-ui", UserRole.operations_manager)
    ∷ ("operations-analyst-ui", UserRole.operations_analyst)
    ∷ ("auditor-ui", UserRole.auditor)
    ∷ ("promiseguard-service", UserRole.service_identity)
    ∷ ("openai-smoke", UserRole.service_identity)
    ∷ ("eval-runner", UserRole.service_identity)
    ∷ []

unfoldable pub registered_role : String → List (String × UserRole) → Option UserRole
registered_role actor [] = none
registered_role actor ((name, role) ∷ rest) =
    if str_eq name actor then some role else registered_role actor rest

-- `bind_claimed_role`, with `strict` as the environment says. The text quotes the name as `repr` does one
-- without quotes or escapes.
unfoldable pub bind_claimed_role : Bool → String → UserRole → Result UserRole
bind_claimed_role strict actor claimed = elim (registered_role actor identity_directory) [
  | some registered ↦
      if is_role claimed registered
      then ok registered
      else err identity_error (
          concat (
            "actor '"
            ∷ actor
            ∷ "' is registered as "
            ∷ role_value registered
            ∷ " and cannot claim "
            ∷ role_value claimed
            ∷ []))
  | none ↦
      if strict
      then err identity_error
          (concat ("actor '" ∷ actor ∷ "' is not in the local identity directory" ∷ []))
      else ok claimed
]

-- `assert_separation_of_duties`
unfoldable pub assert_separation_of_duties : String → String → Result (Unit {0})
assert_separation_of_duties requested_by decided_by =
    if str_eq requested_by decided_by
    then err identity_error "requester cannot approve or reject their own request"
    else ok tt
