-- ===== src/Model/Roles.antt =====
-- db/ProjectUser.go: the roles in a project and their permissions, a bit mask.
use Prim.Native.Nat.{bit_and, bit_or}
use contribute_semaphore.Base.{ℕ, Bool, true, false}
use contribute_semaphore.Base.Tests.{◌==◌}
use contribute_semaphore.Base.Text.{Text}

pub data ProjectUserRole : Type 0 where
  owner manager task_runner guest no_role : ProjectUserRole
  other_role : Text → ProjectUserRole

abbrev pub can_run_project_tasks : ℕ
can_run_project_tasks = 1

abbrev pub can_update_project : ℕ
can_update_project = 2

abbrev pub can_manage_project_resources : ℕ
can_manage_project_resources = 4

abbrev pub can_manage_project_users : ℕ
can_manage_project_users = 8

-- The map rolePermissions; a missing key reads as 0.
unfoldable pub role_permissions : ProjectUserRole → ℕ
role_permissions owner =
    bit_or (bit_or (bit_or can_run_project_tasks can_manage_project_resources) can_update_project)
      can_manage_project_users
role_permissions manager = bit_or can_run_project_tasks can_manage_project_resources
role_permissions task_runner = can_run_project_tasks
role_permissions guest = 0
role_permissions no_role = 0
role_permissions (other_role s) = 0

unfoldable pub is_valid : ProjectUserRole → Bool
is_valid owner = true
is_valid manager = true
is_valid task_runner = true
is_valid guest = true
is_valid no_role = false
is_valid (other_role s) = false

unfoldable pub can : ProjectUserRole → ℕ → Bool
unfolding role_permissions
can r permissions = bit_and (role_permissions r) permissions == permissions
