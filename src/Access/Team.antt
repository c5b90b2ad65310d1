-- ===== src/Access/Team.antt =====
-- The team of a project and the requests that change it: ProjectMiddleware and GetMustCanMiddleware
-- (api/projects/project.go), UserMiddleware, AddUser, removeUser, LeftProject, RemoveUser, UpdateUser
-- (api/projects/users.go), on the project's bucket as db/bolt/user.go keeps it. The events that the
-- handlers write, whose errors they only log, are left out, the project is supposed to exist, and its
-- bucket with it.
use contribute_semaphore.Base.{ℕ, Bool, true, false, not, ◌&&◌, Option, none, some}
use contribute_semaphore.Base.Tests.{◌==◌, if◌then◌else◌}
use contribute_semaphore.Base.Map.{Map, lookup, insert, delete}
use contribute_semaphore.Base.Text.{text}
use contribute_semaphore.Model.Roles.{
  ProjectUserRole, owner, no_role, is_valid, can, can_manage_project_users,
}
use contribute_semaphore.Model.Store.{Error, not_found, failure}

abbrev pub Team : Type 0
Team = Map ProjectUserRole

-- The user who is logged in.
pub record Actor : Type 0 where
  pub id : ℕ
  pub admin : Bool

pub data Reply : Type 0 where
  no_content forbidden bad_request : Reply
  write_error : Error → Reply

pub data Request : Type 0 where
  leave : Request
  remove : ℕ → Request
  change : ℕ → ProjectUserRole → Request
  add : ℕ → ProjectUserRole → Request

abbrev pub is_owner : ProjectUserRole → Bool
is_owner owner = true
is_owner _ = false

abbrev role_or_none : Option ProjectUserRole → ProjectUserRole
role_or_none none = no_role
role_or_none (some r) = r

abbrev is_some {ℓ} : {A : Type ℓ} → Option A → Bool
is_some none = false
is_some (some a) = true

-- The role of the user goes to the handlers behind; an admin need not be of the team.
unfoldable pub project_middleware : Actor → (ProjectUserRole → Team × Reply) → Team → Team × Reply
project_middleware me next team =
    if not me.admin && not (is_some (lookup me.id team))
    then (team, write_error not_found)
    else next (role_or_none (lookup me.id team))

-- `reading` says that the method is GET or HEAD.
unfoldable pub must_can :
    ℕ → Actor → ProjectUserRole → Bool → (Unit {0} → Team × Reply) → Team → Team × Reply
must_can permissions me role reading next team =
    if not me.admin && (not reading && not (can role permissions))
    then (team, forbidden)
    else next tt

-- `exists` says which users there are.
unfoldable pub user_middleware : (ℕ → Bool) → ℕ → (Unit {0} → Team × Reply) → Team → Team × Reply
user_middleware exists user next team =
    if is_some (lookup user team) && exists user then next tt else (team, write_error not_found)

unfoldable pub remove_user : Actor → ProjectUserRole → ℕ → Team → Team × Reply
remove_user me role target team =
    if not me.admin && (target == me.id && is_owner role)
    then (team, write_error (failure (text "owner can not left the project")))
    else (delete target team, no_content)

unfoldable pub update_user : Actor → ProjectUserRole → ℕ → ProjectUserRole → Team → Team × Reply
update_user me role target new team =
    if not me.admin && (target == me.id && is_owner role)
    then (team, write_error (failure (text "owner can not change his role in the project")))
    else if not (is_valid new)
    then (team, bad_request)
    else if is_some (lookup target team)
    then (insert target new team, no_content)
    else (team, write_error not_found)

-- createObject files the user under its ID, whether or not there is one.
unfoldable pub add_user : ℕ → ProjectUserRole → Team → Team × Reply
add_user target role team =
    if not (is_valid role) then (team, bad_request) else (insert target role team, no_content)

-- The routes of api/router.go.
unfoldable pub serve : (ℕ → Bool) → Actor → Request → Team → Team × Reply
unfolding project_middleware must_can user_middleware remove_user update_user add_user
serve exists me leave team = project_middleware me (λ role. remove_user me role me.id team) team
serve exists me (remove user) team =
    project_middleware me
      (λ role.
        must_can can_manage_project_users me role false
          (λ u. user_middleware exists user (λ v. remove_user me role user team) team) team)
      team
serve exists me (change user new) team =
    project_middleware me
      (λ role.
        must_can can_manage_project_users me role false
          (λ u. user_middleware exists user (λ v. update_user me role user new team) team) team)
      team
serve exists me (add user role) team =
    project_middleware me
      (λ my_role.
        must_can can_manage_project_users me my_role false (λ u. add_user user role team) team)
      team
