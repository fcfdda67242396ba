-- ===== src/Resp/Session.antt =====
-- The state of one connection of internal/resp/server.go, the AUTH command and the delivery of its
-- verification by a worker. A policy configuration is one that has a policy store; `policy` is its
-- active policy. The jobs are those of this connection that wait for a worker. The audit trail and
-- the counters of this layer are left out.
use tellstone.Prelude.{
  ℕ, ◌+◌, ◌-◌, Bool, true, false, not, ◌&&◌, ◌||◌, Option, none, some, List, [], ◌∷◌, ◌++◌, Bytes,
  bytes_eq, codes, length, leb, ◌==◌, get_or, if◌then◌else◌,
}
use tellstone.Rbac.Role.{Session, new_session}
use tellstone.Rbac.Policy.{Policy, Claims, role_for, user_for, no_pass_default, resolve_oauth_token}
use tellstone.Rbac.AuthLog.{AuthLog, log_auth_failure}
use tellstone.Resp.Protocol.{append_simple_string, append_error}

-- connState. `has_tls` is tlsConn != nil; `is_open` is false once the connection was closed.
pub record Conn : Type 0 where
  pub authenticated : Bool
  pub session : Option Session
  pub remote : Bytes
  pub close_after_reply : Bool
  pub upgrade_tls : Bool
  pub auth_pending : Bool
  pub auth_fails : ℕ
  pub has_tls : Bool
  pub is_open : Bool

-- What a Server is configured with. `has_certificate` is tlsConfigs.Load() != nil.
pub record Config : Type 0 where
  pub start_tls : Bool
  pub has_certificate : Bool
  pub require_pass : Option Bytes
  pub has_policy : Bool
  pub has_oauth : Bool
  pub has_audit : Bool

-- authJob
pub record Job : Type 0 where
  pub password : Bytes
  pub pass_hash : Option Bytes
  pub username : Bytes
  pub reason : Bytes
  pub session : Option Session
  pub oauth : Bool

-- What AUTH reads and changes.
pub record Desk : Type 0 where
  pub policy : Option Policy
  pub log : AuthLog
  pub jobs : List Job

abbrev pub max_auth_fails : ℕ
max_auth_fails = 3

-- connectionAuth
unfoldable pub connection_auth : Config → Option Policy → Bool × Option Session
connection_auth g policy =
    if g.has_policy
    then (if no_pass_default policy
        then (true, some (new_session (codes "default") (role_for policy (codes "default"))))
        else (false, none))
    else (elim g.require_pass [ none ↦ true | some hash ↦ false ], none)

-- The state that OnOpen sets.
unfoldable pub open_conn : Config → Option Policy → Bytes → Conn
unfolding connection_auth
open_conn g policy remote = record {
  authenticated = (connection_auth g policy).0;
  session = (connection_auth g policy).1;
  remote = remote;
  close_after_reply = false;
  upgrade_tls = false;
  auth_pending = false;
  auth_fails = 0;
  has_tls = g.has_certificate && not g.start_tls;
  is_open = true;
}

abbrev pub resp_ok : Bytes
resp_ok = append_simple_string (codes "OK")

abbrev pub invalid_password : Bytes
invalid_password = append_error (codes "ERR invalid password")

-- A connection, the desk, a reply, and whether a verification was dispatched.
abbrev pub Authed : Type 0
Authed = Conn × Desk × Bytes × Bool

-- authFailed
unfoldable pub auth_failed : Config → ℕ → Conn → Desk → Bytes → Bytes → Conn × Desk × Bytes
auth_failed g now c d username reason =
    let fails = c.auth_fails + 1 in
    (
      record c {
        auth_fails = fails;
        close_after_reply = leb max_auth_fails fails || c.close_after_reply;
      },
      (if g.has_policy
          then record d { log = log_auth_failure d.log now username c.remote reason }
          else d),
      invalid_password,
    )

-- dispatchAuth and dispatchOAuth, with whether the queue of the workers has room
unfoldable pub dispatch_job : Bool → Conn → Desk → Job → Authed
dispatch_job room c d job =
    if room
    then (record c { auth_pending = true }, record d { jobs = d.jobs ++ job ∷ [] }, [], true)
    else (c, d, invalid_password, false)

abbrev pub username_of : List Bytes → Bytes
username_of args = if length args == 3 then get_or args 1 [] else codes "default"

abbrev pub password_of : List Bytes → Bytes
password_of args = get_or args (length args - 1) []

abbrev pub failed_now : Conn × Desk × Bytes → Authed
failed_now (c, d, out) = (c, d, out, false)

-- authRBAC
unfoldable pub auth_rbac : Config → Bool → ℕ → Conn → Desk → List Bytes → Authed
unfolding auth_failed dispatch_job
auth_rbac g room now c d args = elim d.policy [
  | none ↦ failed_now (auth_failed g now c d (username_of args) (codes "policy not loaded"))
  | some p ↦ elim (user_for (some p) (username_of args)) [
    | none ↦ failed_now (auth_failed g now c d (username_of args) (codes "unknown user"))
    | some u ↦
        let session = new_session (username_of args) (role_for (some p) (username_of args)) in
        if length u.password_hash == 0
        then (record c { authenticated = true; session = some session }, d, resp_ok, false)
        else dispatch_job room c d (record {
          password = password_of args;
          pass_hash = some u.password_hash;
          username = username_of args;
          reason = codes "invalid password";
          session = some session;
          oauth = false;
        })
  ]
]

abbrev pub count_dots : Bytes → ℕ
count_dots [] = 0
count_dots (c ∷ s) = if c == b'.' then 1 + count_dots s else count_dots s

-- oauth.IsJWT
abbrev pub is_jwt : Bytes → Bool
is_jwt b = count_dots b == 2 && leb 5 (length b)

-- auth; authOAuth is its first branch
unfoldable pub auth : Config → Bool → ℕ → Conn → Desk → List Bytes → Authed
unfolding auth_rbac auth_failed dispatch_job
auth g room now c d args =
    if not (length args == 2) && not (length args == 3)
    then (c, d, append_error (codes "ERR wrong number of arguments for 'auth' command"), false)
    else if g.has_policy
    then (if g.has_oauth && (length args == 2 && is_jwt (get_or args 1 []))
        then dispatch_job room c d (record {
          password = get_or args 1 [];
          pass_hash = none;
          username = [];
          reason = codes "invalid token";
          session = none;
          oauth = true;
        })
        else auth_rbac g room now c d args)
    else elim g.require_pass [
      | none ↦ (c, d, resp_ok, false)
      | some hash ↦
          if not (bytes_eq (username_of args) (codes "default"))
          then failed_now (auth_failed g now c d (username_of args) (codes "unknown user"))
          else dispatch_job room c d (record {
            password = password_of args;
            pass_hash = some hash;
            username = codes "default";
            reason = codes "invalid password";
            session = none;
            oauth = false;
          })
    ]

-- What the workers call: bcrypt's comparison and the provider's Verify.
pub record Verifier : Type 0 where
  pub compare : Bytes → Bytes → Bool
  pub verify : Bytes → Option Claims

-- The session that a worker finds for a job, and whether it succeeds.
unfoldable pub judge : Verifier → Option Policy → Job → Bool × Option Session × Bytes
judge v policy job =
    if job.oauth
    then elim (resolve_oauth_token policy (v.verify job.password)) [
      | none ↦ (false, none, [])
      | some (session, username) ↦ (true, some session, username)
    ]
    else (
      elim job.pass_hash [ none ↦ true | some hash ↦ v.compare hash job.password ],
      job.session,
      job.username,
    )

-- The callback of a worker's Wake with the verdict on a job. Closing is decided by the caller's write.
unfoldable pub woken :
    Config → ℕ → Conn → Desk → Bytes → Bool × Option Session × Bytes → Conn × Desk × Bytes
unfolding auth_failed
woken g now c d reason (true, session, username) =
    (record c { authenticated = true; session = session }, d, resp_ok)
woken g now c d reason (false, session, username) = auth_failed g now c d username reason

-- A worker's Wake for the first job.
unfoldable pub wake_jobs : Config → Verifier → ℕ → Conn → Desk → List Job → Conn × Desk × Bytes
unfolding woken judge
wake_jobs g v now c d [] = (c, d, [])
wake_jobs g v now c d (job ∷ rest) =
    woken g now (record c { auth_pending = false }) (record d { jobs = rest }) job.reason
      (judge v d.policy job)

unfoldable pub wake : Config → Verifier → ℕ → Conn → Desk → Conn × Desk × Bytes
unfolding wake_jobs
wake g v now c d = wake_jobs g v now c d d.jobs
