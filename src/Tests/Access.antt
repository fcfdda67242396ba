-- ===== src/Tests/Access.antt =====
-- The policy and its log on concrete inputs.
use tellstone.Prelude.{
  ℕ, zero, suc, ◌≡◌, refl, not, ◌&&◌, ◌||◌, ◌==◌, Option, none, some, List, [], ◌∷◌, Bytes, codes,
  length, bytes_eq, has_prefix,
}
use tellstone.Prelude.Table.{lookup, insert, erase}
use tellstone.Rbac.Bitset.{has}
use tellstone.Rbac.Catalog.{lookup_command, category_ids, category}
use tellstone.Rbac.Role.{
  Role, parse_role, new_session, is_allowed, parse_rule, add_rules, add_rule, namespace_rule,
  trim_star,
}
use tellstone.Rbac.Role.Language.{
  Command, Token, may, may_not, may_all, within, anywhere, get_command, set_command, write_category,
  number, some_gives, some_takes, covers, spaces,
}
use tellstone.Rbac.Role.Meaning.{texts, parse_role-allows}
use tellstone.Rbac.AuthLog.{Entry, new_log, seed, auth_log}
use tellstone.Rbac.AuthLog.Ring.{newest, auth_log-seed}
use tellstone.Rbac.Policy.{User, Policy, role_for, assigned}
use tellstone.Rbac.Manager.{
  Snapshot, Mutation, creating, setting, deleting_role, create_role, set_user, delete_role,
  del_user, mutate, mutate_all, manages,
}
use tellstone.Rbac.Manager.Sound.{IsSound, mutate_all-role_for}
use tellstone.Rbac.Manager.Admins.{IsAdmin, del_user-IsAdmin}

abbrev given : Option Role → Role
given (some r) = r
given none = record { ref = 0; name = []; permissions = []; namespaces = [] }

-- +get -set +@write ~users:* ~*
abbrev rest : List Token
rest = may_not set_command ∷ may_all write_category ∷ within b'u' (codes "sers:") ∷ anywhere ∷ []

parse_role-allows_example :
    (role : Role) × (parse_role 3 (codes "r") (texts (may get_command ∷ rest)) ≡ some role)
    × ((username key : Bytes) (c : Command)
        → is_allowed (new_session username (some role)) (number c) key ≡ (
            (some_gives c (may get_command ∷ rest) && not (some_takes c (may get_command ∷ rest)))
            && (covers (spaces (may get_command ∷ rest)) key
                || length (spaces (may get_command ∷ rest)) == 0)))
parse_role-allows_example = parse_role-allows 3 (codes "r") (may get_command) rest

abbrev entry : ℕ → Entry
entry n = record { timestamp = n; username = codes "u"; remote_addr = []; reason = [] }

abbrev entries : ℕ → List Entry
entries zero = []
entries (suc n) = entry n ∷ entries n

auth_log-seed_example : auth_log (seed new_log (entries 120)) ≡ newest (entries 120)
auth_log-seed_example = auth_log-seed (entries 120)

abbrev manager_role : Role
manager_role = record { ref = 1; name = codes "admin"; permissions = 256 ∷ []; namespaces = [] }

abbrev boss : User
boss = record { role = codes "admin"; password_hash = [] }

abbrev policy : Policy
policy = record {
  roles = (codes "admin", manager_role) ∷ [];
  users = (codes "root", boss) ∷ (codes "aide", boss) ∷ [];
  default = none;
  oauth_rules = [];
}

abbrev alone : Policy
alone = record policy { users = (codes "root", boss) ∷ [] }

-- Users without a role of their own get the role of the administrators.
abbrev lenient : Policy
lenient = record policy { default = some manager_role }

abbrev mutations : List Mutation
mutations =
    creating 2 (codes "reader") (codes "+@read" ∷ [])
    ∷ setting (codes "ann") (codes "reader") []
    ∷ deleting_role (codes "admin")
    ∷ []

abbrev held : Snapshot → Policy
held (some p) = p
held none = policy

lenient-listed : IsSound (some lenient)
unfolding lookup bytes_eq
lenient-listed r e = (codes "admin", e)

mutate_all-role_for_example :
    (name : Bytes) × (lookup name (held (mutate_all (some lenient) mutations)).roles
      ≡ some (given (role_for (some (held (mutate_all (some lenient) mutations))) (codes "ann"))))
unfolding mutate_all mutate create_role set_user delete_role role_for assigned lookup insert erase
    bytes_eq has_prefix parse_role add_rules add_rule parse_rule namespace_rule trim_star
    lookup_command category_ids category
mutate_all-role_for_example =
    mutate_all-role_for (some lenient) mutations (held (mutate_all (some lenient) mutations))
      (codes "ann")
      (given (role_for (some (held (mutate_all (some lenient) mutations))) (codes "ann")))
      lenient-listed (tt, (tt, (tt, tt))) refl refl

root-IsAdmin : IsAdmin policy (codes "root")
unfolding lookup bytes_eq role_for assigned manages has
root-IsAdmin = record { user = boss; listed = refl; rights = refl }

alone-IsAdmin : IsAdmin alone (codes "root")
unfolding lookup bytes_eq role_for assigned manages has
alone-IsAdmin = record { user = boss; listed = refl; rights = refl }

del_user-IsAdmin_example :
    (q : Policy) × ((del_user (some policy) (codes "root")).0 ≡ some q)
    × (survivor : Bytes) × IsAdmin q survivor
del_user-IsAdmin_example = del_user-IsAdmin policy (codes "root") (codes "root") root-IsAdmin
