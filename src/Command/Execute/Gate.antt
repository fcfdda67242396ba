-- ===== src/Command/Execute/Gate.antt =====
-- The RBAC gate in front of the handlers.
use tellstone.Prelude.{
  ℕ, ◌≡◌, ◌≤◌, refl, ◌∙◌, true, none, some, List, [], ◌∷◌, ◌++◌, Bytes, codes, arith, length, ltb,
  ◌⊎◌, inl, inr, Option-cases, Bool-cases, add64, map, lower,
}
use tellstone.Rbac.Role.{Session, is_allowed}
use tellstone.Rbac.AuthLog.{append, log_denied, inc_denied, auth_log}
use tellstone.Rbac.AuthLog.Ring.{IsRing, newest, auth_log-append}
use tellstone.Command.Store.{Store}
use tellstone.Command.Execute.{
  denied, Name, get_cmd, set_cmd, del_cmd, name_of, rbac_id, arity, keys, lookup_command, State,
  Ctx, username_or, first_denied, deny_key, deny, execute,
}

-- The session may run the command on each key.
abbrev pub AllAllowed : Session → ℕ → List Bytes → Type 0
AllAllowed s id [] = Unit
AllAllowed s id (k ∷ ks) = (is_allowed s id k ≡ true) × AllAllowed s id ks

first_denied-none :
    (s : Session) (id : ℕ) (ks : List Bytes) → first_denied s id ks ≡ none → AllAllowed s id ks
unfolding first_denied
first_denied-none s id [] h = tt
first_denied-none s id (k ∷ ks) h = (ground arith, first_denied-none s id ks (ground arith))

first_denied-some :
    (s : Session) (id : ℕ) (ks : List Bytes) → AllAllowed s id ks → first_denied s id ks ≡ none
unfolding first_denied
first_denied-some s id [] h = refl
first_denied-some s id (k ∷ ks) h = ground (arith, first_denied-some s id ks h.1)

-- Behind the arity test every command has a key.
keys_lem :
    (cmd : Name) (args : List Bytes)
    → arity cmd ≤ length args
    → (k : Bytes) × (rest : List Bytes) × (keys cmd args ≡ k ∷ rest)
keys_lem cmd [] h = absurd (few cmd h)
  where
    few : (cmd : Name) → arity cmd ≤ 0 → ⊥
    few get_cmd h = omega arith
    few set_cmd h = omega arith
    few del_cmd h = omega arith
keys_lem cmd (a ∷ []) h = absurd (few cmd h)
  where
    few : (cmd : Name) → arity cmd ≤ 1 → ⊥
    few get_cmd h = omega arith
    few set_cmd h = omega arith
    few del_cmd h = omega arith
keys_lem get_cmd (a ∷ k ∷ rest) h = (k, [], refl)
keys_lem set_cmd (a ∷ k ∷ rest) h = (k, [], refl)
keys_lem del_cmd (a ∷ k ∷ rest) h = (k, rest, refl)

-- A key set passes the gate only if there is a session, and it is allowed every key.
passes :
    (c : Ctx) (cmd : Name) (args : List Bytes)
    → arity cmd ≤ length args
    → deny_key c cmd args ≡ none
    → (s : Session) × (c.session ≡ some s) × AllAllowed s (rbac_id cmd) (keys cmd args)
passes c cmd args h k = elim (Option-cases c.session) [
  | inl absent ↦
      let (key, rest, e) = keys_lem cmd args h in absurd (unfold deny_key in ground arith)
  | inr (s, e) ↦
      (s, e, first_denied-none s (rbac_id cmd) (keys cmd args) (unfold deny_key in ground arith))
]

module _ {S Error : Type 0} (store : Store S Error) where
  -- With a policy, a call changes the store only for a session that is allowed the command on every
  -- key of the call: GET and SET on their key, DEL on each of its keys, so that a DEL with one
  -- forbidden key deletes nothing.
  pub execute-AllAllowed :
      (c : Ctx) (name : Bytes) (args : List Bytes) (st : State S)
      → c.has_policy ≡ true
      → ((execute store c (name ∷ args) st).0.store ≡ st.store)
        ⊎ ((cmd : Name) × (lookup_command name ≡ some cmd)
            × (s : Session) × (c.session ≡ some s)
            × AllAllowed s (rbac_id cmd) (keys cmd (name ∷ args)))
  execute-AllAllowed c name args st h = elim (Option-cases (lookup_command name)) [
    | inl other ↦ inl (unfold execute in ground arith)
    | inr (cmd, e) ↦ elim (Bool-cases (ltb (length (name ∷ args)) (arity cmd))) [
      | inl few ↦ inl (unfold execute in ground arith)
      | inr enough ↦ elim (Option-cases (deny_key c cmd (name ∷ args))) [
        | inr (key, refused) ↦ inl (unfold execute deny in ground arith)
        | inl free ↦
            let (s, session, allowed) = passes c cmd (name ∷ args) (ground arith) free in
            inr (cmd, e, s, session, allowed)
      ]
    ]
  ]

  denied_count :
      (c : Ctx) (cmd : Name) (key : Bytes) (st : State S)
      → (deny store c cmd key st).log.denied_commands ≡ add64 st.log.denied_commands 1
  denied_count c cmd key st = unfold deny log_denied inc_denied append in refl

  denied_log :
      (c : Ctx) (cmd : Name) (key : Bytes) (st : State S)
      → IsRing st.log
      → auth_log (deny store c cmd key st).log
        ≡ newest (
            auth_log st.log
            ++ record {
              timestamp = c.now;
              username = username_or [] c.session;
              remote_addr = c.remote;
              reason =
                  codes "NOPERM command=" ++ (map lower (name_of cmd) ++ (codes " key=" ++ key));
            }
              ∷ [])
  denied_log c cmd key st ring =
      let ring' : IsRing (inc_denied st.log) =
        unfold inc_denied in
        record { rows = ring.rows; head_in = ring.head_in; len_in = ring.len_in } in
      unfold deny log_denied in
      (auth_log-append (inc_denied st.log) _ ring' ∙ (unfold inc_denied auth_log in refl))

  -- A refused call answers NOPERM, leaves the store and the counters of the roles alone, adds one to
  -- the denied commands, and ACL LOG then shows its entry as the newest.
  pub execute-denied :
      (c : Ctx) (name : Bytes) (args : List Bytes) (cmd : Name) (key : Bytes) (st : State S)
      → c.has_policy ≡ true
      → lookup_command name ≡ some cmd
      → arity cmd ≤ length (name ∷ args)
      → deny_key c cmd (name ∷ args) ≡ some key
      → IsRing st.log
      → let out = execute store c (name ∷ args) st in
        (out.1 ≡ some (denied (map lower (name_of cmd))))
        × (out.0.store ≡ st.store)
        × (out.0.role_counts ≡ st.role_counts)
        × (out.0.log.denied_commands ≡ add64 st.log.denied_commands 1)
        × (auth_log out.0.log
            ≡ newest (
                auth_log st.log
                ++ record {
                  timestamp = c.now;
                  username = username_or [] c.session;
                  remote_addr = c.remote;
                  reason =
                      codes "NOPERM command="
                      ++ (map lower (name_of cmd) ++ (codes " key=" ++ key));
                }
                  ∷ []))
  execute-denied c name args cmd key st h e enough refused ring =
      let ran : execute store c (name ∷ args) st
          ≡ (deny store c cmd key st, some (denied (map lower (name_of cmd)))) =
        unfold execute in ground arith in
      rw ran (
        refl,
        unfold deny in refl,
        unfold deny in refl,
        denied_count c cmd key st,
        denied_log c cmd key st ring,
      )
