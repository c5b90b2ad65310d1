-- ===== src/Bolt/Migration/Retry.antt =====
-- What the migration 2.8.91 makes of a member of a team (db/bolt/migration_2_8_91.go), once and again.
use contribute_semaphore.Base.{◌≡◌, refl, ◌∙◌, false, none, some, [], ◌∷◌, arith}
use contribute_semaphore.Base.Text.{Text, text, text_eq, text_eq_self, eq_of_text_eq}
use contribute_semaphore.Bolt.Migration.{
  JsonValue, json_string, json_true, Members, member, set_value, delete_value, set_role,
}
use contribute_semaphore.Tasks.World.{done}

member-set_self : (k : Text) (v : JsonValue) (m : Members) → member k (set_value k v m) ≡ some v
unfolding member set_value
member-set_self k v [] = ground (arith, text_eq_self k)
member-set_self k v ((j, w) ∷ m) = ground (arith, member-set_self k v m)

member-set_other :
    (k j : Text) (v : JsonValue) (m : Members)
    → text_eq k j ≡ false
    → member j (set_value k v m) ≡ member j m
unfolding member set_value
member-set_other k j v [] ne = ground (arith, ne)
member-set_other k j v ((i, w) ∷ m) ne =
    ground (arith, member-set_other k j v m ne, eq_of_text_eq i k)

member-delete_self : (k : Text) (m : Members) → member k (delete_value k m) ≡ none
unfolding member delete_value
member-delete_self k [] = refl
member-delete_self k ((j, w) ∷ m) = ground (arith, member-delete_self k m)

member-delete_other :
    (k j : Text) (m : Members) → text_eq k j ≡ false → member j (delete_value k m) ≡ member j m
unfolding member delete_value
member-delete_other k j [] ne = refl
member-delete_other k j ((i, w) ∷ m) ne =
    ground (arith, member-delete_other k j m ne, eq_of_text_eq i k)

-- The members of a user after the migration.
abbrev pub Migrated : Text → Members → Members → Type 0
Migrated role m m' =
    (set_role m ≡ done m')
    × (member (text "role") m' ≡ some (json_string role))
    × (member (text "admin") m' ≡ none)
    × ((k : Text)
        → text_eq (text "role") k ≡ false
        → text_eq (text "admin") k ≡ false
        → member k m' ≡ member k m)

-- One round, for the role that is chosen.
abbrev rewritten : Text → Members → Members
rewritten role m = delete_value (text "admin") (set_value (text "role") (json_string role) m)

rewritten-Migrated :
    (role : Text) (m : Members)
    → set_role m ≡ done (rewritten role m)
    → Migrated role m (rewritten role m)
rewritten-Migrated role m h =
    let set = set_value (text "role") (json_string role) m in
    (
      h,
      member-delete_other (text "admin") (text "role") set (unfold text_eq in refl)
          ∙ member-set_self (text "role") (json_string role) m,
      member-delete_self (text "admin") set,
      λ k r a.
          member-delete_other (text "admin") k set a
          ∙ member-set_other (text "role") k (json_string role) m r,
    )

-- The migration 2.8.91 makes an admin of a project an owner, removes the mark of the admin and
-- keeps the other members; a second run on the result makes the owner a manager.
pub set_role-again :
    (m : Members)
    → member (text "admin") m ≡ some json_true
    → (m1 : Members) × (m2 : Members) × Migrated (text "owner") m m1
      × Migrated (text "manager") m1 m2
unfolding set_role
set_role-again m admin =
    let m1 = rewritten (text "owner") m in
    let once = rewritten-Migrated (text "owner") m (ground (arith, admin)) in
    (
      m1,
      rewritten (text "manager") m1,
      once,
      rewritten-Migrated (text "manager") m1 (ground (arith, once.2)),
    )
