-- ===== src/Rbac/Manager/Admins.antt =====
-- Deleting users never removes the last administrator, and is refused for no other reason.
use tellstone.Prelude.{
  ◌≡◌, ap, ◌∙◌, true, false, not, ◌&&◌, some, [], ◌∷◌, Bytes, bytes_eq, bytes_eq_iff, bytes_eq_refl,
  bytes_eq_comm, arith, Option-cases, Bool-cases, inl, inr,
}
use tellstone.Prelude.Table.{Table, lookup, erase, lookup-erase}
use tellstone.Rbac.Policy.{Policy, User, role_for}
use tellstone.Rbac.Manager.{manages, other_admin_in, has_other_admin, Error, last_admin, del_user}

-- A user whose effective role may manage the ACL.
pub record IsAdmin (p : Policy) (name : Bytes) : Type 0 where
  pub user : User
  pub listed : lookup name p.users ≡ some user
  pub rights : manages (role_for (some p) name) ≡ true

-- What the loop finds.
other_admin :
    (p : Policy) (username : Bytes) (users : Table User)
    → other_admin_in p username users ≡ true
    → (name : Bytes) × (u : User) × (lookup name users ≡ some u)
      × (bytes_eq name username ≡ false)
      × (manages (role_for (some p) name) ≡ true)
unfolding other_admin_in lookup
other_admin p username [] h = cc
other_admin p username ((name, u) ∷ rest) h =
    elim (Bool-cases (not (bytes_eq name username) && manages (role_for (some p) name))) [
      | inl found ↦ (name, u, rw (bytes_eq_refl name), ground arith, ground arith)
      | inr other ↦
          let (n, v, listed, apart, rights) = other_admin p username rest (ground arith) in
          elim (Bool-cases (bytes_eq name n)) [
            | inl shadows ↦ (n, u, rw shadows, apart, rights)
            | inr later ↦ (n, v, rw later listed, apart, rights)
          ]
    ]

-- What it does not pass over.
no_other_admin :
    (p : Policy) (username name : Bytes) (u : User) (users : Table User)
    → other_admin_in p username users ≡ false
    → lookup name users ≡ some u
    → manages (role_for (some p) name) ≡ true
    → name ≡ username
unfolding other_admin_in lookup
no_other_admin p username name u [] h l r = cc
no_other_admin p username name u ((n, v) ∷ rest) h l r = elim (Bool-cases (bytes_eq n name)) [
  | inl here ↦
      let e : n ≡ name = (bytes_eq_iff n name).0 here in
      (bytes_eq_iff name username).0 (ground arith)
  | inr later ↦ no_other_admin p username name u rest (ground arith) (ground arith) r
]

-- The other users' roles do not depend on the one who goes.
role_for-erase :
    (p : Policy) (username name : Bytes)
    → bytes_eq name username ≡ false
    → role_for (some (record p { users = erase username p.users })) name ≡ role_for (some p) name
unfolding role_for
role_for-erase p username name h =
    ground (arith, lookup-erase username name p.users, bytes_eq_comm username name)

erase-IsAdmin :
    (p : Policy) (username name : Bytes)
    → bytes_eq name username ≡ false
    → IsAdmin p name
    → IsAdmin (record p { users = erase username p.users }) name
erase-IsAdmin p username name h a = record {
  user = a.user;
  listed =
      ground (arith, lookup-erase username name p.users, bytes_eq_comm username name, a.listed);
  rights = ap manages (role_for-erase p username name h) ∙ a.rights;
}

-- If a policy has a user with ACL rights, it still has one after DelUser, whoever is deleted and
-- whether or not it is refused.
pub del_user-IsAdmin :
    (p : Policy) (username name : Bytes)
    → IsAdmin p name
    → (q : Policy) × ((del_user (some p) username).0 ≡ some q)
      × (survivor : Bytes) × IsAdmin q survivor
del_user-IsAdmin p username name a = elim (Option-cases (lookup username p.users)) [
  | inl absent ↦ (p, unfold del_user in ground arith, name, a)
  | inr (u, here) ↦
      elim (Bool-cases (manages (role_for (some p) username) && not (has_other_admin p username))) [
        | inl refused ↦ (p, unfold del_user in ground arith, name, a)
        | inr let_go ↦
            let q : Policy = record p { users = erase username p.users } in
            let gone : (del_user (some p) username).0 ≡ some q = unfold del_user in ground arith in
            elim (Bool-cases (bytes_eq name username)) [
              | inr another ↦ (q, gone, name, erase-IsAdmin p username name another a)
              | inl self ↦
                  let e : name ≡ username = (bytes_eq_iff name username).0 self in
                  let rights : manages (role_for (some p) username) ≡ true = rw (← e) a.rights in
                  let others : other_admin_in p username p.users ≡ true =
                    unfold has_other_admin in ground arith in
                  let (n, v, listed, apart, r) = other_admin p username p.users others in
                  (
                    q,
                    gone,
                    n,
                    erase-IsAdmin p username n apart
                        (record { user = v; listed = listed; rights = r }),
                  )
            ]
      ]
]

-- DelUser is refused only for a user with ACL rights besides whom no user has them.
del_user_refused :
    (p : Policy) (username name : Bytes) (err : Error)
    → (del_user (some p) username).1 ≡ some err
    → IsAdmin p name
    → (err ≡ last_admin) × (name ≡ username)
del_user_refused p username name err h a =
    let refused : has_other_admin p username ≡ false = unfold del_user in ground arith in
    (
      unfold del_user in ground arith,
      no_other_admin p username name a.user p.users (unfold has_other_admin in refused) a.listed
          a.rights,
    )
