-- ===== src/Registry/Upgrading.antt =====
-- An upgrade of the registry leaves its rows alone.
use zapadka.Common.{Bool, ◌≡◌, arith}
use zapadka.Errors.{ok, >>=-eq-ok}
use zapadka.Manifest.{Uuid}
use zapadka.Registry.{RegistryState, check_project, upgrade_in_transaction}

pub upgrade_in_transaction-applied :
    (answered : Bool) (project_id : Uuid) (state after : RegistryState)
    → upgrade_in_transaction answered project_id state ≡ ok after
    → after.applied ≡ state.applied
unfolding upgrade_in_transaction
upgrade_in_transaction-applied answered project_id state after h =
    let (_, _, rest) = >>=-eq-ok (check_project state project_id) _ h in ground arith
