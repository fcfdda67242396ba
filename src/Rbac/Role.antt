-- ===== src/Rbac/Role.antt =====
-- internal/rbac/role.go, session.go and parser.go. A `*Role` is compared by its address when a role
-- is deleted, so the record carries the address as `ref`. The executed-command counter of a role is
-- the only field that changes after it is built: counters stand apart, by `ref`.
pub mod Rules
pub mod Language
pub mod Meaning
use tellstone.Prelude.{
  ℕ, Bool, true, false, not, ◌||◌, ◌==◌, Option, none, some, List, [], ◌∷◌, ◌++◌, Bytes, bytes_eq,
  has_prefix, codes, length, take, drop, add64, if◌then◌else◌, ◌-◌,
}
use tellstone.Rbac.Bitset.{Bitset, grant, has, revoke, grant_all, revoke_all, new_bitset}
use tellstone.Rbac.Catalog.{lookup_command, category_ids}

pub record Role : Type 0 where
  pub ref : ℕ
  pub name : Bytes
  pub permissions : Bitset
  pub namespaces : List Bytes

unfoldable pub any_prefix : List Bytes → Bytes → Bool
any_prefix [] key = false
any_prefix (prefix ∷ rest) key = has_prefix key prefix || any_prefix rest key

-- AllowsKey
unfoldable pub allows_key : Role → Bytes → Bool
unfolding any_prefix has_prefix
allows_key r key = any_prefix r.namespaces key || length r.namespaces == 0

-- SessionContext; a nil role denies everything.
pub record Session : Type 0 where
  pub role : Option Role
  pub role_name : Bytes
  pub username : Bytes

-- NewSessionContext
unfoldable pub new_session : Bytes → Option Role → Session
new_session username none = record { role = none; role_name = []; username = username }
new_session username (some r) = record { role = some r; role_name = r.name; username = username }

-- AllowsCommand
unfoldable pub allows_command : Session → ℕ → Bool
allows_command s cmd = elim s.role [ none ↦ false | some r ↦ has r.permissions cmd ]

-- IsAllowed
unfoldable pub is_allowed : Session → ℕ → Bytes → Bool
unfolding allows_command
is_allowed s cmd key =
    if not (allows_command s cmd)
    then false
    else elim s.role [ none ↦ false | some r ↦ allows_key r key ]

-- CountCommand, on the counters of all roles
unfoldable pub count_command : Session → (ℕ → ℕ) → ℕ → ℕ
count_command s counts = elim s.role [
  | none ↦ counts
  | some r ↦ λ ref. if r.ref == ref then add64 (counts ref) 1 else counts ref
]

-- One rule token, after the prefix tests of ParseRole.
pub data Rule : Type 0 where
  grants : List ℕ → Rule
  denies : List ℕ → Rule
  allows : Bytes → Rule
  allows_all : Rule

-- strings.TrimSuffix(s, "*")
unfoldable pub trim_star : Bytes → Bytes
trim_star [] = []
trim_star (c ∷ []) = if c == b'*' then [] else c ∷ []
trim_star (c ∷ d ∷ s) = c ∷ trim_star (d ∷ s)

unfoldable pub namespace_rule : Bytes → Option Rule
unfolding trim_star
namespace_rule text = if length (trim_star text) == 0 then none else some (allows (trim_star text))

abbrev pub as_grants : Option (List ℕ) → Option Rule
as_grants none = none
as_grants (some ids) = some (grants ids)

abbrev pub as_denies : Option (List ℕ) → Option Rule
as_denies none = none
as_denies (some ids) = some (denies ids)

abbrev pub single : Option ℕ → Option (List ℕ)
single none = none
single (some id) = some (id ∷ [])

-- The switch of ParseRole; `none` is an error.
unfoldable pub parse_rule : Bytes → Option Rule
unfolding has_prefix bytes_eq namespace_rule
parse_rule rule =
    if has_prefix rule (codes "+@")
    then as_grants (category_ids (drop 2 rule))
    else if has_prefix rule (codes "-@")
    then as_denies (category_ids (drop 2 rule))
    else if has_prefix rule (codes "+")
    then as_grants (single (lookup_command (drop 1 rule)))
    else if has_prefix rule (codes "-")
    then as_denies (single (lookup_command (drop 1 rule)))
    else if has_prefix rule (codes "~")
    then (if bytes_eq rule (codes "~*") then some allows_all else namespace_rule (drop 1 rule))
    else none

-- The loop of ParseRole over its three accumulators.
pub record Draft : Type 0 where
  pub perms : Bitset
  pub denied : List ℕ
  pub prefixes : List Bytes

unfoldable pub add_rule : Draft → Rule → Draft
add_rule d (grants ids) = record d { perms = grant_all d.perms ids }
add_rule d (denies ids) = record d { denied = d.denied ++ ids }
add_rule d (allows prefix) = record d { prefixes = d.prefixes ++ prefix ∷ [] }
add_rule d allows_all = d

unfoldable pub add_rules : Draft → List Bytes → Option Draft
unfolding add_rule
add_rules d [] = some d
add_rules d (rule ∷ rest) = elim (parse_rule rule) [
  | none ↦ none
  | some r ↦ add_rules (add_rule d r) rest
]

-- ParseRole; `ref` is the address of the new role.
unfoldable pub parse_role : ℕ → Bytes → List Bytes → Option Role
unfolding add_rules
parse_role ref name [] = none
parse_role ref name (rule ∷ rules) =
    elim (add_rules (record { perms = new_bitset []; denied = []; prefixes = [] }) (rule ∷ rules)) [
      | none ↦ none
      | some d ↦ some (record {
        ref = ref;
        name = name;
        permissions = revoke_all d.perms d.denied;
        namespaces = d.prefixes;
      })
    ]
