-- ===== src/Rbac/Manager/Sound.antt =====
-- No snapshot ever resolves a user to a role that it does not list.
use tellstone.Prelude.{
  ℕ, ◌≡◌, subst, Bool, false, not, ◌&&◌, ◌==◌, none, some, List, [], ◌∷◌, Bytes, bytes_eq_iff,
  if◌then◌else◌, arith, Option-cases, Bool-cases, inl, inr,
}
use tellstone.Prelude.Table.{lookup, insert, erase, lookup-insert, lookup-erase}
use tellstone.Rbac.Role.{Role, parse_role}
use tellstone.Rbac.Policy.{Policy, role_for}
use tellstone.Rbac.Manager.{
  Snapshot, Mutation, creating, setting, deleting_user, deleting_role, reloading, is_default,
  clone_or_fresh, create_role, set_user, del_user, delete_role, manages, has_other_admin, mutate,
  mutate_all,
}

-- The default role, if there is one, stands among the roles.
abbrev pub DefaultListed : Policy → Type 0
DefaultListed p = (r : Role) → p.default ≡ some r → (name : Bytes) × (lookup name p.roles ≡ some r)

abbrev pub IsSound : Snapshot → Type 0
IsSound none = Unit
IsSound (some p) = DefaultListed p

-- A policy that a reload publishes is sound, as those that the loader builds are.
abbrev pub WithSound : Mutation → Type 0
WithSound (reloading p) = DefaultListed p
WithSound _ = Unit

abbrev pub AllSound : List Mutation → Type 0
AllSound [] = Unit
AllSound (m ∷ rest) = WithSound m × AllSound rest

-- The test under which a user goes.
removes : Policy → Bytes → Bool
removes p username = elim (lookup username p.users) [
  | none ↦ false
  | some _ ↦ not (manages (role_for (some p) username) && not (has_other_admin p username))
]

clone_or_fresh-listed : (s : Snapshot) → IsSound s → DefaultListed (clone_or_fresh s)
clone_or_fresh-listed none h = λ r e. absurd (ground arith)
clone_or_fresh-listed (some p) h = h

same : (s t : Snapshot) → s ≡ t → IsSound s → IsSound t
same s t e h = subst IsSound e h

create_role-IsSound :
    (s : Snapshot) (ref : ℕ) (name : Bytes) (rules : List Bytes)
    → IsSound s
    → IsSound (create_role s ref name rules).0
unfolding create_role
create_role-IsSound s ref name rules h = elim (Option-cases (parse_role ref name rules)) [
  | inl bad ↦ same s _ (ground arith) h
  | inr (role, e) ↦ elim (Option-cases (lookup name (clone_or_fresh s).roles)) [
    | inl absent ↦
        same
          (some (record (clone_or_fresh s) { roles = insert name role (clone_or_fresh s).roles })) _
          (ground arith)
          (λ r d.
            let (n, listed) = clone_or_fresh-listed s h r d in
            (
              n,
              ground
                  (arith, lookup-insert name n role (clone_or_fresh s).roles, bytes_eq_iff name n),
            ))
    | inr (old, here) ↦ same s _ (ground arith) h
  ]
]

set_user-IsSound :
    (s : Snapshot) (username role_name pass_hash : Bytes)
    → IsSound s
    → IsSound (set_user s username role_name pass_hash).0
unfolding set_user
set_user-IsSound s username role_name pass_hash h =
    elim (Option-cases (lookup role_name (clone_or_fresh s).roles)) [
      | inl absent ↦ same s _ (ground arith) h
      | inr (r, here) ↦
          same
            (some (record (clone_or_fresh s) {
              users =
                  insert username (record { role = role_name; password_hash = pass_hash })
                    (clone_or_fresh s).users;
            }))
            _ (ground arith) (clone_or_fresh-listed s h)
    ]

del_user-IsSound : (s : Snapshot) (username : Bytes) → IsSound s → IsSound (del_user s username).0
unfolding del_user
del_user-IsSound none username h = tt
del_user-IsSound (some p) username h = elim (Bool-cases (removes p username)) [
  | inl gone ↦
      same (some (record p { users = erase username p.users })) _ (unfold removes in ground arith) h
  | inr kept ↦ same (some p) _ (unfold removes in ground arith) h
]

delete_role-IsSound : (s : Snapshot) (name : Bytes) → IsSound s → IsSound (delete_role s name).0
unfolding delete_role
delete_role-IsSound none name h = tt
delete_role-IsSound (some p) name h = elim (Option-cases (lookup name p.roles)) [
  | inl absent ↦ same (some p) _ (ground arith) h
  | inr (r, here) ↦
      same
        (some (record p {
          default = if is_default p.default r then none else p.default;
          roles = erase name p.roles;
        }))
        _ (ground arith)
        (λ d e.
          let stays : p.default ≡ some d = ground arith in
          let other : (d.ref == r.ref) ≡ false = ground arith in
          let (n, listed) = h d stays in
          (n, ground (arith, lookup-erase name n p.roles, bytes_eq_iff name n)))
]

mutate-IsSound : (s : Snapshot) (m : Mutation) → IsSound s → WithSound m → IsSound (mutate s m).0
unfolding mutate
mutate-IsSound s (creating ref name rules) h w = create_role-IsSound s ref name rules h
mutate-IsSound s (setting username role_name pass_hash) h w =
    set_user-IsSound s username role_name pass_hash h
mutate-IsSound s (deleting_user username) h w = del_user-IsSound s username h
mutate-IsSound s (deleting_role name) h w = delete_role-IsSound s name h
mutate-IsSound s (reloading p) h w = w

mutate_all-IsSound :
    (s : Snapshot) (ms : List Mutation) → IsSound s → AllSound ms → IsSound (mutate_all s ms)
unfolding mutate_all
mutate_all-IsSound s [] h w = h
mutate_all-IsSound s (m ∷ rest) h w =
    mutate_all-IsSound (mutate s m).0 rest (mutate-IsSound s m h w.0) w.1

Sound-role_for :
    (p : Policy) (username : Bytes) (r : Role)
    → DefaultListed p
    → role_for (some p) username ≡ some r
    → (name : Bytes) × (lookup name p.roles ≡ some r)
unfolding role_for
Sound-role_for p username r h e = elim (Option-cases (lookup username p.users)) [
  | inl absent ↦ h r (ground arith)
  | inr (u, here) ↦ elim (Option-cases (lookup u.role p.roles)) [
    | inl dangling ↦ h r (ground arith)
    | inr (x, there) ↦ (u.role, ground arith)
  ]
]

-- After any ROLE and ACL mutations and reloads of sound policies on a sound snapshot, whatever role
-- a user resolves to still stands among the roles: a deleted role is never reached, neither
-- through a user that names it nor as the default.
pub mutate_all-role_for :
    (s : Snapshot) (ms : List Mutation) (p : Policy) (username : Bytes) (r : Role)
    → IsSound s
    → AllSound ms
    → mutate_all s ms ≡ some p
    → role_for (some p) username ≡ some r
    → (name : Bytes) × (lookup name p.roles ≡ some r)
mutate_all-role_for s ms p username r h w e found =
    Sound-role_for p username r (same _ (some p) e (mutate_all-IsSound s ms h w)) found
