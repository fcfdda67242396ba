-- ===== src/Rbac/Manager.antt =====
-- internal/rbac/manager.go and the Store of policy.go. A mutation holds the store's mutex from its
-- Load to its Store, so mutations come one after another. `Clone` copies the maps, which are values
-- here. The ring of security events is in AuthLog.
pub mod Sound
pub mod Admins
use tellstone.Prelude.{
  ℕ, Bool, true, false, not, ◌&&◌, ◌||◌, ◌==◌, Option, none, some, List, [], ◌∷◌, Bytes, bytes_eq,
  if◌then◌else◌,
}
use tellstone.Prelude.Table.{Table, lookup, insert, erase}
use tellstone.Rbac.Bitset.{has}
use tellstone.Rbac.Catalog.{cmd_acl}
use tellstone.Rbac.Role.{Role, parse_role}
use tellstone.Rbac.Policy.{Policy, User, role_for}

pub data Error : Type 0 where
  bad_rules role_exists unknown_role last_admin no_such_role : Error

-- The active snapshot of a Store; a mutation gives the next one, and an error or nil.
abbrev pub Snapshot : Type 0
Snapshot = Option Policy

abbrev pub Outcome : Type 0
Outcome = Snapshot × Option Error

abbrev pub fresh : Policy
fresh = record { roles = []; users = []; default = none; oauth_rules = [] }

-- The clone, or the policy that a mutation of a nil snapshot starts from.
abbrev pub clone_or_fresh : Snapshot → Policy
clone_or_fresh none = fresh
clone_or_fresh (some p) = p

-- CreateRole; `ref` is the address of the new role.
unfoldable pub create_role : Snapshot → ℕ → Bytes → List Bytes → Outcome
create_role s ref name rules = elim (parse_role ref name rules) [
  | none ↦ (s, some bad_rules)
  | some role ↦
      let p = clone_or_fresh s in
      elim (lookup name p.roles) [
        | some _ ↦ (s, some role_exists)
        | none ↦ (some (record p { roles = insert name role p.roles }), none)
      ]
]

-- SetUser
unfoldable pub set_user : Snapshot → Bytes → Bytes → Bytes → Outcome
set_user s username role_name pass_hash =
    let p = clone_or_fresh s in
    elim (lookup role_name p.roles) [
      | none ↦ (s, some unknown_role)
      | some _ ↦ (
        some (record p {
          users = insert username (record { role = role_name; password_hash = pass_hash }) p.users;
        }),
        none,
      )
    ]

-- r != nil && r.Permissions.Has(CmdACL)
unfoldable pub manages : Option Role → Bool
manages none = false
manages (some r) = has r.permissions cmd_acl

-- The loop of hasOtherAdmin over the users.
unfoldable pub other_admin_in : Policy → Bytes → Table User → Bool
unfolding manages
other_admin_in p username [] = false
other_admin_in p username ((name, u) ∷ rest) =
    (not (bytes_eq name username) && manages (role_for (some p) name))
    || other_admin_in p username rest

unfoldable pub has_other_admin : Policy → Bytes → Bool
unfolding other_admin_in
has_other_admin p username = other_admin_in p username p.users

-- DelUser
unfoldable pub del_user : Snapshot → Bytes → Outcome
del_user none username = (none, none)
del_user (some p) username = elim (lookup username p.users) [
  | none ↦ (some p, none)
  | some _ ↦
      if manages (role_for (some p) username) && not (has_other_admin p username)
      then (some p, some last_admin)
      else (some (record p { users = erase username p.users }), none)
]

-- p.Default == p.Roles[name], on addresses
abbrev pub is_default : Option Role → Role → Bool
is_default none r = false
is_default (some d) r = d.ref == r.ref

-- DeleteRole
unfoldable pub delete_role : Snapshot → Bytes → Outcome
delete_role none name = (none, some no_such_role)
delete_role (some p) name = elim (lookup name p.roles) [
  | none ↦ (some p, some no_such_role)
  | some r ↦ (
    some (record p {
      default = if is_default p.default r then none else p.default;
      roles = erase name p.roles;
    }),
    none,
  )
]

-- The calls that change the snapshot; Reload publishes a policy.
pub data Mutation : Type 0 where
  creating : ℕ → Bytes → List Bytes → Mutation
  setting : Bytes → Bytes → Bytes → Mutation
  deleting_user : Bytes → Mutation
  deleting_role : Bytes → Mutation
  reloading : Policy → Mutation

unfoldable pub mutate : Snapshot → Mutation → Outcome
mutate s (creating ref name rules) = create_role s ref name rules
mutate s (setting username role_name pass_hash) = set_user s username role_name pass_hash
mutate s (deleting_user username) = del_user s username
mutate s (deleting_role name) = delete_role s name
mutate s (reloading p) = (some p, none)

unfoldable pub mutate_all : Snapshot → List Mutation → Snapshot
unfolding mutate
mutate_all s [] = s
mutate_all s (m ∷ rest) = mutate_all (mutate s m).0 rest
