-- ===== src/Resp/Gate.antt =====
-- The authentication gate of a connection of internal/resp/server.go.
pub mod Command
pub mod Buffer
pub mod Stranger
use tellstone.Prelude.{
  ℕ, zero, suc, ◌+◌, ◌-◌, ◌≡◌, refl, ap, ◌∙◌, sym, subst, Bool, true, false, not, ◌&&◌, ◌||◌, inl,
  inr, ◌⊎◌, Bool-cases, Option-cases, Option, none, some, List, [], ◌∷◌, ◌++◌, Bytes, bytes_eq,
  bytes_eq_iff, codes, length, leb, ltb, ◌==◌, get_or, if◌then◌else◌, map, upper, arith,
}
use tellstone.Rbac.Policy.{Policy, User, user_for, role_for, resolve_oauth_token}
use tellstone.Rbac.Role.{new_session}
use tellstone.Rbac.AuthLog.{AuthLog}
use tellstone.Command.Store.{Store}
use tellstone.Command.Execute.{
  Name, get_cmd, set_cmd, del_cmd, name_of, lookup_command, lookup_in, execute,
}
use tellstone.Command.Ttl.{equal_fold_ascii}
use tellstone.Resp.Protocol.{
  Parsed, parsed, failed, incomplete, malformed, parse, equal_fold, append_bulk,
  append_simple_string, append_error,
}
use tellstone.Resp.Session.{
  Conn, Config, Desk, Job, Verifier, Authed, auth, auth_rbac, auth_failed, dispatch_job, judge,
  wake, username_of, password_of, is_jwt, resp_ok, failed_now,
}
use tellstone.Resp.Dispatch.{
  World, Env, Admin, dispatch, run_command, run_other, start_tls, no_auth,
}

-- Whether AUTH with these arguments shows a secret that the server accepts.
abbrev pub credential : Config → Verifier → Option Policy → List Bytes → Bool
credential g v policy args =
    if not (length args == 2) && not (length args == 3)
    then false
    else if not g.has_policy
    then elim g.require_pass [ none ↦ false | some hash ↦ v.compare hash (password_of args) ]
    else if g.has_oauth && (length args == 2 && is_jwt (get_or args 1 []))
    then elim (resolve_oauth_token policy (v.verify (get_or args 1 []))) [
      | none ↦ false
      | some r ↦ true
    ]
    else elim policy [
      | none ↦ false
      | some p ↦ elim (user_for (some p) (username_of args)) [
        | none ↦ false
        | some u ↦ length u.password_hash == 0 || v.compare u.password_hash (password_of args)
      ]
    ]

-- An AUTH command without a secret that the server accepts, or another command.
abbrev pub IsRefused : Config → Verifier → Option Policy → List Bytes → Type 0
IsRefused g v policy [] = Unit
IsRefused g v policy (cmd ∷ args) =
    equal_fold cmd (codes "AUTH") ≡ true → credential g v policy (cmd ∷ args) ≡ false

abbrev pub AllFail : Verifier → Option Policy → List Job → Type 0
AllFail v policy [] = Unit
AllFail v policy (j ∷ js) = ((judge v policy j).0 ≡ false) × AllFail v policy js

-- A connection that has not authenticated and whose waiting verifications are going to fail.
pub record IsLocked (v : Verifier) (policy : Option Policy) (c : Conn) (d : Desk) : Type 0 where
  pub shut : c.authenticated ≡ false
  pub jobs_fail : AllFail v policy d.jobs
  pub same_policy : d.policy ≡ policy

AllFail-snoc :
    (v : Verifier) (policy : Option Policy) (js : List Job) (j : Job)
    → AllFail v policy js
    → (judge v policy j).0 ≡ false
    → AllFail v policy (js ++ j ∷ [])
AllFail-snoc v policy [] j h k = (k, tt)
AllFail-snoc v policy (i ∷ js) j h k = (h.0, AllFail-snoc v policy js j h.1 k)

pub auth_failed-IsLocked :
    (g : Config) (v : Verifier) (policy : Option Policy) (now : ℕ) (c : Conn) (d : Desk)
    (username reason : Bytes)
    → IsLocked v policy c d
    → IsLocked v policy
        (auth_failed g now c d username reason).0
        (auth_failed g now c d username reason).1
unfolding auth_failed
auth_failed-IsLocked g v policy now c d username reason l = elim (Bool-cases g.has_policy) [
  | inl e ↦ rw e (record { shut = l.shut; jobs_fail = l.jobs_fail; same_policy = l.same_policy })
  | inr e ↦ rw e (record { shut = l.shut; jobs_fail = l.jobs_fail; same_policy = l.same_policy })
]

dispatch_job-IsLocked :
    (v : Verifier) (policy : Option Policy) (room : Bool) (c : Conn) (d : Desk) (j : Job)
    → IsLocked v policy c d
    → (judge v policy j).0 ≡ false
    → IsLocked v policy (dispatch_job room c d j).0 (dispatch_job room c d j).1
unfolding dispatch_job
dispatch_job-IsLocked v policy true c d j l h = record {
  shut = l.shut;
  jobs_fail = AllFail-snoc v policy d.jobs j l.jobs_fail h;
  same_policy = l.same_policy;
}
dispatch_job-IsLocked v policy false c d j l h = l

-- The password of a known user, or that of nobody, is accepted.
abbrev user_credential : Verifier → Option Policy → List Bytes → Bool
user_credential v policy args = elim policy [
  | none ↦ false
  | some p ↦ elim (user_for (some p) (username_of args)) [
    | none ↦ false
    | some u ↦ length u.password_hash == 0 || v.compare u.password_hash (password_of args)
  ]
]

-- A result that leaves the connection locked.
abbrev pub KeepsLocked : Verifier → Option Policy → Authed → Type 0
KeepsLocked v policy x = IsLocked v policy x.0 x.1

kept :
    (v : Verifier) (policy : Option Policy) (x y : Authed)
    → x ≡ y
    → KeepsLocked v policy y
    → KeepsLocked v policy x
kept v policy x y e k = subst (KeepsLocked v policy) (sym e) k

auth_rbac-IsLocked :
    (g : Config) (v : Verifier) (policy : Option Policy) (room : Bool) (now : ℕ) (c : Conn)
    (d : Desk) (args : List Bytes)
    → IsLocked v policy c d
    → user_credential v policy args ≡ false
    → IsLocked v policy (auth_rbac g room now c d args).0 (auth_rbac g room now c d args).1
auth_rbac-IsLocked g v policy room now c d args l h = elim (Option-cases policy) [
  | inl gone ↦
      kept v policy (auth_rbac g room now c d args)
        (failed_now (auth_failed g now c d (username_of args) (codes "policy not loaded")))
        (unfold auth_rbac in ground (arith, l.same_policy, gone))
        (auth_failed-IsLocked g v policy now c d _ _ l)
  | inr (p, q) ↦ elim (Option-cases (user_for (some p) (username_of args))) [
    | inl unknown ↦
        kept v policy (auth_rbac g room now c d args)
          (failed_now (auth_failed g now c d (username_of args) (codes "unknown user")))
          (unfold auth_rbac in ground (arith, l.same_policy))
          (auth_failed-IsLocked g v policy now c d _ _ l)
    | inr (u, known) ↦
        let job : Job = record {
          password = password_of args;
          pass_hash = some u.password_hash;
          username = username_of args;
          reason = codes "invalid password";
          session = some (new_session (username_of args) (role_for (some p) (username_of args)));
          oauth = false;
        } in
        kept v policy (auth_rbac g room now c d args) (dispatch_job room c d job)
          (unfold auth_rbac in ground (arith, l.same_policy))
          (dispatch_job-IsLocked v policy room c d job l (unfold judge in ground arith))
  ]
]

-- After an AUTH without an accepted secret the connection is still locked.
pub auth-IsLocked :
    (g : Config) (v : Verifier) (policy : Option Policy) (room : Bool) (now : ℕ) (c : Conn)
    (d : Desk) (args : List Bytes)
    → IsLocked v policy c d
    → credential g v policy args ≡ false
    → IsLocked v policy (auth g room now c d args).0 (auth g room now c d args).1
auth-IsLocked g v policy room now c d args l h =
    elim (Bool-cases (not (length args == 2) && not (length args == 3))) [
      | inl bad ↦
          kept v policy (auth g room now c d args)
            (c, d, append_error (codes "ERR wrong number of arguments for 'auth' command"), false)
            (unfold auth in ground arith) l
      | inr fine ↦ elim (Bool-cases g.has_policy) [
        | inr single ↦ elim (Option-cases g.require_pass) [
          | inl free ↦
              kept v policy (auth g room now c d args) (c, d, resp_ok, false)
                (unfold auth in ground arith) l
          | inr (hash, q) ↦ elim (Bool-cases (bytes_eq (username_of args) (codes "default"))) [
            | inr other ↦
                kept v policy (auth g room now c d args)
                  (failed_now (auth_failed g now c d (username_of args) (codes "unknown user")))
                  (unfold auth in ground arith) (auth_failed-IsLocked g v policy now c d _ _ l)
            | inl known ↦
                let job : Job = record {
                  password = password_of args;
                  pass_hash = some hash;
                  username = codes "default";
                  reason = codes "invalid password";
                  session = none;
                  oauth = false;
                } in
                kept v policy (auth g room now c d args) (dispatch_job room c d job)
                  (unfold auth in ground arith)
                  (dispatch_job-IsLocked v policy room c d job l (unfold judge in ground arith))
          ]
        ]
        | inl multi ↦
            elim (Bool-cases (g.has_oauth && (length args == 2 && is_jwt (get_or args 1 [])))) [
              | inl token ↦
                  let job : Job = record {
                    password = get_or args 1 [];
                    pass_hash = none;
                    username = [];
                    reason = codes "invalid token";
                    session = none;
                    oauth = true;
                  } in
                  kept v policy (auth g room now c d args) (dispatch_job room c d job)
                    (unfold auth in ground arith)
                    (dispatch_job-IsLocked v policy room c d job l (unfold judge in ground arith))
              | inr word ↦
                  kept v policy (auth g room now c d args) (auth_rbac g room now c d args)
                    (unfold auth in ground arith)
                    (auth_rbac-IsLocked g v policy room now c d args l (ground arith))
            ]
      ]
    ]
