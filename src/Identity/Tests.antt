-- ===== src/Identity/Tests.antt =====
-- A claimed role of a registered actor (src/promiseguard/identity.py).
use promiseguard_ai.Prelude.{◌≡◌, refl, ◌⊎◌, true, false, none, some}
use promiseguard_ai.Prelude.Exec.{ok}
use promiseguard_ai.Models.{UserRole}
use promiseguard_ai.Identity.{bind_claimed_role, registered_role, identity_directory}
use promiseguard_ai.Identity.Binding.{bind_claimed_role-registered}

bind_manager :
    bind_claimed_role true "operations-manager-ui" UserRole.operations_manager
    ≡ ok UserRole.operations_manager
unfolding bind_claimed_role registered_role
bind_manager = refl

bind_claimed_role-registered_example :
    (UserRole.operations_manager ≡ UserRole.operations_manager)
    × ((registered_role "operations-manager-ui" identity_directory
          ≡ some UserRole.operations_manager)
        ⊎ ((registered_role "operations-manager-ui" identity_directory ≡ none) × (true ≡ false)))
bind_claimed_role-registered_example =
    bind_claimed_role-registered true "operations-manager-ui" UserRole.operations_manager
      bind_manager
