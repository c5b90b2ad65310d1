-- ===== src/Access/Owner.antt =====
-- A team keeps an owner, and only an owner changes it (api/projects/users.go).
use contribute_semaphore.Base.{
  ℕ, ◌≡◌, refl, sym, subst, ◌≢◌, ◌⊎◌, inl, inr, Bool, true, false, Option, none, some, arith,
}
use contribute_semaphore.Base.Tests.{==_self, Bool-cases}
use contribute_semaphore.Base.Map.{lookup, lookup-insert, lookup-delete}
use contribute_semaphore.Model.Roles.{
  ProjectUserRole, owner, manager, task_runner, guest, no_role, other_role, is_valid, can,
  can_manage_project_users, role_permissions,
}
use contribute_semaphore.Access.Team.{
  Team, Actor, Reply, Request, leave, remove, change, add, is_owner, project_middleware, must_can,
  user_middleware, remove_user, update_user, add_user, serve,
}

-- Only an owner may manage the users of a project.
can_manage : (r : ProjectUserRole) → can r can_manage_project_users ≡ is_owner r
unfolding can role_permissions
can_manage owner = refl
can_manage manager = refl
can_manage task_runner = refl
can_manage guest = refl
can_manage no_role = refl
can_manage (other_role s) = refl

abbrev pub HasOwner : Team → Type 0
HasOwner team = (u : ℕ) × (lookup u team ≡ some owner)

abbrev pub is_add : Request → Bool
is_add (add u r) = true
is_add _ = false

module _ (me : Actor) (team : Team) (plain : me.admin ≡ false) where
  abbrev guarded : (ProjectUserRole → Team × Reply) → Team × Reply
  guarded h =
      project_middleware me
        (λ role. must_can can_manage_project_users me role false (λ u. h role) team) team

  -- A request that needs an owner leaves the team as it is, or comes from an owner and is handled.
  guarded-cases :
      (h : ProjectUserRole → Team × Reply)
      → ((guarded h).0 ≡ team) ⊎ ((lookup me.id team ≡ some owner) × (guarded h ≡ h owner))
  unfolding project_middleware must_can
  guarded-cases h = go (lookup me.id team) refl
    where
      by_role :
          (r : ProjectUserRole)
          → lookup me.id team ≡ some r
          → ((guarded h).0 ≡ team) ⊎ ((lookup me.id team ≡ some owner) × (guarded h ≡ h owner))
      by_role owner e = inr (e, rw (plain, e, can_manage owner) refl)
      by_role manager e = inl (rw (plain, e, can_manage manager) refl)
      by_role task_runner e = inl (rw (plain, e, can_manage task_runner) refl)
      by_role guest e = inl (rw (plain, e, can_manage guest) refl)
      by_role no_role e = inl (rw (plain, e, can_manage no_role) refl)
      by_role (other_role s) e = inl (rw (plain, e, can_manage (other_role s)) refl)

      go :
          (o : Option ProjectUserRole)
          → lookup me.id team ≡ o
          → ((guarded h).0 ≡ team) ⊎ ((lookup me.id team ≡ some owner) × (guarded h ≡ h owner))
      go none e = inl (rw (plain, e) refl)
      go (some r) e = by_role r e

  unchanged :
      (h : ProjectUserRole → Team × Reply) → lookup me.id team ≢ some owner → (guarded h).0 ≡ team
  unchanged h n = elim (guarded-cases h) [ inl e ↦ e | inr (e, k) ↦ absurd (n e) ]

module _ (exists : ℕ → Bool) (me : Actor) (team : Team) (plain : me.admin ≡ false) where
  -- A user who is neither an admin nor an owner of the project can change its team by leaving it
  -- alone.
  pub serve-team :
      (q : Request)
      → lookup me.id team ≢ some owner
      → ((serve exists me q team).0 ≡ team) ⊎ (q ≡ leave)
  unfolding serve
  serve-team leave n = inr refl
  serve-team (remove u) n = inl (
      unchanged me team plain (λ x. user_middleware exists u (λ v. remove_user me x u team) team) n)
  serve-team (change u r) n = inl (
      unchanged me team plain (λ x. user_middleware exists u (λ v. update_user me x u r team) team)
        n)
  serve-team (add u r) n = inl (unchanged me team plain (λ x. add_user u r team) n)

  keeps :
      (h : ProjectUserRole → Team × Reply)
      → HasOwner team
      → (lookup me.id team ≡ some owner → HasOwner (h owner).0)
      → HasOwner (guarded me team plain h).0
  keeps h own k = elim (guarded-cases me team plain h) [
    | inl e ↦ subst HasOwner (sym e) own
    | inr (e, q) ↦ subst (λ z. HasOwner z.0) (sym q) (k e)
  ]

  removed :
      (u : ℕ)
      → lookup me.id team ≡ some owner
      → HasOwner (user_middleware exists u (λ v. remove_user me owner u team) team).0
  unfolding user_middleware remove_user
  removed u e = (me.id, ground (arith, lookup-delete u me.id team))

  changed :
      (u : ℕ) (r : ProjectUserRole)
      → lookup me.id team ≡ some owner
      → HasOwner (user_middleware exists u (λ v. update_user me owner u r team) team).0
  unfolding user_middleware update_user
  changed u r e = (me.id, ground (arith, lookup-insert u me.id r team))

  by_other :
      (r : ProjectUserRole)
      → HasOwner team
      → lookup me.id team ≡ some r
      → is_owner r ≡ false
      → HasOwner (project_middleware me (λ role. remove_user me role me.id team) team).0
  unfolding project_middleware remove_user
  by_other r (u, o) e k = (u, rw (plain, e, k) (ground (arith, lookup-delete me.id u team)))

  left :
      HasOwner team
      → (o : Option ProjectUserRole) → lookup me.id team ≡ o
      → HasOwner (project_middleware me (λ role. remove_user me role me.id team) team).0
  unfolding project_middleware remove_user
  left own none e = rw (plain, e) own
  left own (some owner) e = rw (plain, e, ==_self me.id) own
  left own (some manager) e = by_other manager own e refl
  left own (some task_runner) e = by_other task_runner own e refl
  left own (some guest) e = by_other guest own e refl
  left own (some no_role) e = by_other no_role own e refl
  left own (some (other_role s)) e = by_other (other_role s) own e refl

  -- A team that has an owner has one after a request of a user who is no admin to leave, to remove
  -- a user or to change a role.
  pub serve-HasOwner :
      (q : Request) → is_add q ≡ false → HasOwner team → HasOwner (serve exists me q team).0
  unfolding serve
  serve-HasOwner leave a own = left own (lookup me.id team) refl
  serve-HasOwner (remove u) a own =
      keeps (λ x. user_middleware exists u (λ v. remove_user me x u team) team) own (removed u)
  serve-HasOwner (change u r) a own =
      keeps (λ x. user_middleware exists u (λ v. update_user me x u r team) team) own (changed u r)
  serve-HasOwner (add u r) a own = absurd (cc)

  -- An owner who is no admin and adds himself as a guest is a guest from then on, though his
  -- request to change his role to guest leaves the team as it is.
  pub owner_adds_himself :
      lookup me.id team ≡ some owner
      → (lookup me.id (serve exists me (add me.id guest) team).0 ≡ some guest)
        × ((serve exists me (change me.id guest) team).0 ≡ team)
  unfolding serve project_middleware must_can add_user user_middleware update_user can
      role_permissions is_valid
  owner_adds_himself e = (
    rw (plain, e) (ground (arith, lookup-insert me.id me.id guest team)),
    elim (Bool-cases (exists me.id)) [
      | inl k ↦ rw (plain, e, k, ==_self me.id) refl
      | inr k ↦ rw (plain, e, k) refl
    ],
  )
