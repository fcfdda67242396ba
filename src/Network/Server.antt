-- ===== src/Network/Server.antt =====
-- internal/network/server.go: a plaintext connection of the binary protocol, from the bytes of the
-- event loop to the replies. The state behind the application handler is any type; the handler and
-- whether a write succeeds are arguments. The jobs and their workers are those of the RESP server,
-- whose verification is the same. The audit trail and the byte counters are left out, and the calls
-- of the event loop's buffer do not fail.

pub mod Gate
pub mod Turns
use tellstone.Prelude.{
  ℕ, zero, suc, ◌+◌, ◌-◌, Bool, true, false, not, ◌&&◌, ◌||◌, Option, none, some, List, [], ◌∷◌,
  ◌++◌, Bytes, bytes_eq, codes, length, take, drop, get_or, leb, ltb, ◌==◌, if◌then◌else◌,
}
use tellstone.Prelude.Run.{Run, done, panics}
use tellstone.Rbac.Catalog.{cmd_get, cmd_set, cmd_del, cmd_role, cmd_acl}
use tellstone.Rbac.Role.{Session, new_session, allows_command, is_allowed, count_command}
use tellstone.Rbac.Policy.{role_for, user_for}
use tellstone.Rbac.AuthLog.{log_auth_failure, log_denied, inc_denied}
use tellstone.Network.Frame.{Message, short_read, decoded, failed, Decoded, decode, write, get16}
use tellstone.Resp.Session.{Desk, Job, is_jwt, max_auth_fails}

abbrev pub msg_ping : ℕ
msg_ping = 0

abbrev pub msg_auth : ℕ
msg_auth = 4

abbrev pub msg_auth_ok : ℕ
msg_auth_ok = 5

abbrev pub msg_auth_err : ℕ
msg_auth_err = 6

abbrev pub msg_error : ℕ
msg_error = 7

-- connState
pub record Conn : Type 0 where
  pub authenticated : Bool
  pub session : Option Session
  pub remote : Bytes
  pub auth_fails : ℕ
  pub auth_pending : Bool
  pub close_after_reply : Bool

-- What a Server is configured with.
pub record Config : Type 0 where
  pub require_pass : Option Bytes
  pub has_policy : Bool
  pub has_oauth : Bool
  pub max_msg_size : ℕ

-- What the gate makes of a frame: a reply of its own, a job for the workers, or the way to the
-- handler.
pub data Gated : Type 0 where
  answered : ℕ → Bytes → Gated
  dispatched passes : Gated

abbrev pub At : Type 0
At = Conn × Desk × Gated

-- parseAuthPayload; `none` is malformed
unfoldable pub parse_auth_payload : Bytes → Option (Bytes × Bytes)
parse_auth_payload s =
    if ltb (length s) 2
    then none
    else if ltb (length s) (2 + get16 s + 2)
    then none
    else if ltb (length s) (2 + get16 s + 2 + get16 (drop (2 + get16 s) s))
    then none
    else some
        (take (get16 s) (drop 2 s), take (get16 (drop (2 + get16 s) s)) (drop (2 + get16 s + 2) s))

-- authFailed
unfoldable pub auth_failed : Config → ℕ → Conn → Desk → Bytes → Bytes → At
auth_failed g now c d username reason =
    let fails = c.auth_fails + 1 in
    (
      record c {
        auth_fails = fails;
        close_after_reply = leb max_auth_fails fails || c.close_after_reply;
      },
      (if g.has_policy
          then record d { log = log_auth_failure d.log now username c.remote reason }
          else d),
      answered msg_auth_err (codes "INVALID_AUTH"),
    )

-- dispatchAuth and dispatchOAuth, with whether the queue of the workers has room
unfoldable pub dispatch_job : Bool → Conn → Desk → Job → At
dispatch_job room c d job =
    if room
    then (record c { auth_pending = true }, record d { jobs = d.jobs ++ job ∷ [] }, dispatched)
    else (c, d, answered msg_auth_err (codes "INVALID_AUTH"))

abbrev pub name_of : Bytes → Bytes
name_of username = if length username == 0 then codes "default" else username

-- The lookup of the user in the policy, and the job for the workers.
unfoldable pub auth_user : Config → Bool → ℕ → Conn → Desk → Bytes → Bytes → At
unfolding auth_failed dispatch_job
auth_user g room now c d username password = elim d.policy [
  | none ↦ auth_failed g now c d username (codes "policy not loaded")
  | some p ↦ elim (user_for (some p) (name_of username)) [
    | none ↦ auth_failed g now c d (name_of username) (codes "unknown user")
    | some u ↦ dispatch_job room c d (record {
      password = password;
      pass_hash = if length u.password_hash == 0 then none else some u.password_hash;
      username = name_of username;
      reason = codes "invalid password";
      session = some (new_session (name_of username) (role_for (some p) (name_of username)));
      oauth = false;
    })
  ]
]

-- AUTH without a policy, against the password of the server
unfoldable pub auth_password : Config → Bool → ℕ → Conn → Desk → Bytes → Bytes → At
unfolding auth_failed dispatch_job
auth_password g room now c d username password =
    if not (length username == 0) && not (bytes_eq username (codes "default"))
    then auth_failed g now c d username (codes "unknown user")
    else dispatch_job room c d (record {
      password = password;
      pass_hash = g.require_pass;
      username = [];
      reason = [];
      session = none;
      oauth = false;
    })

-- handleAuthMessage behind parseAuthPayload
unfoldable pub auth_parsed : Config → Bool → ℕ → Conn → Desk → Option (Bytes × Bytes) → At
unfolding auth_user auth_password auth_failed dispatch_job
auth_parsed g room now c d none = auth_failed g now c d [] (codes "malformed request")
auth_parsed g room now c d (some (username, password)) =
    if g.has_oauth && (length username == 0 && is_jwt password)
    then dispatch_job room c d (record {
      password = password;
      pass_hash = none;
      username = [];
      reason = codes "invalid token";
      session = none;
      oauth = true;
    })
    else if g.has_policy
    then auth_user g room now c d username password
    else auth_password g room now c d username password

-- No password and no policy: AUTH is a no-op.
abbrev pub is_unprotected : Config → Bool
is_unprotected g = elim g.require_pass [ none ↦ not g.has_policy | some hash ↦ false ]

-- handleAuthMessage
unfoldable pub handle_auth : Config → Bool → ℕ → Conn → Desk → Bytes → At
unfolding auth_parsed parse_auth_payload
handle_auth g room now c d value =
    if is_unprotected g
    then (c, d, answered msg_auth_ok (codes "OK"))
    else auth_parsed g room now c d (parse_auth_payload value)

-- The command bit of an op code.
abbrev pub is_role_op : ℕ → Bool
is_role_op op = leb 4 op && leb op 9

abbrev pub is_acl_op : ℕ → Bool
is_acl_op op = leb 10 op && leb op 13

unfoldable pub session_allows : Session → Message → Bool
unfolding allows_command is_allowed
session_allows s m =
    if is_role_op m.op
    then allows_command s cmd_role
    else if is_acl_op m.op
    then allows_command s cmd_acl
    else if m.op == 1
    then is_allowed s cmd_get m.key
    else if m.op == 2
    then is_allowed s cmd_set m.key
    else if m.op == 3
    then is_allowed s cmd_del m.key
    else false

-- opAuthorized
unfoldable pub op_authorized : Message → Option Session → Bool
unfolding session_allows
op_authorized m session =
    if m.type == msg_ping || m.type == msg_auth
    then true
    else elim session [ none ↦ false | some s ↦ session_allows s m ]

-- OpCode.String
abbrev pub op_names : List Bytes
op_names =
    codes "UNKNOWN"
    ∷ codes "GET"
    ∷ codes "SET"
    ∷ codes "DELETE"
    ∷ codes "ROLE CREATE"
    ∷ codes "ROLE SETUSER"
    ∷ codes "ROLE DELUSER"
    ∷ codes "ROLE DELETE"
    ∷ codes "ROLE LIST"
    ∷ codes "ROLE GETUSER"
    ∷ codes "ACL SETUSER"
    ∷ codes "ACL DELUSER"
    ∷ codes "ACL LIST"
    ∷ codes "ACL LOG"
    ∷ []

abbrev pub op_name : ℕ → Bytes
op_name op = get_or op_names op (codes "UNKNOWN")

abbrev pub user_of : Option Session → Bytes
user_of none = []
user_of (some s) = s.username

-- gateMessage
unfoldable pub gate_message : Config → Bool → ℕ → Conn → Desk → Message → At
unfolding handle_auth op_authorized
gate_message g room now c d m =
    if m.type == msg_auth
    then handle_auth g room now c d m.value
    else if not c.authenticated && not (m.type == msg_ping)
    then (c, d, answered msg_auth_err (codes "INVALID_AUTH"))
    else if g.has_policy && not (op_authorized m c.session)
    then (
      c,
      record d {
        log = log_denied (inc_denied d.log) now (user_of c.session) c.remote (op_name m.op) m.key;
      },
      answered msg_error (codes "NOT_AUTHORIZED"),
    )
    else (c, d, passes)

-- The application handler: the state behind it, and a payload that may be nil with its type, or an
-- error.
abbrev pub Handler : Type 0 → Type 0
Handler S = S → Message → S × Option (Option Bytes × ℕ)

-- A connection with the counters of the roles, the state behind the handler, what was sent, and
-- whether it is to be closed.
pub record World (S : Type 0) : Type 0 where
  pub conn : Conn
  pub desk : Desk
  pub role_counts : ℕ → ℕ
  pub app : S
  pub sent : Bytes
  pub closes : Bool

abbrev pub blank : Message
blank = record { type = 0; op = 0; ttl = 0; key = []; value = []; payload = [] }

module _ {S : Type 0} where
  -- The writing half of runHandler.
  unfoldable pub reply : Bool → World S → Option Bytes → ℕ → World S
  reply write_ok w none type = record w { closes = w.conn.close_after_reply }
  reply write_ok w (some payload) type =
      if write_ok
      then record w { sent = w.sent ++ write type payload; closes = w.conn.close_after_reply }
      else record w { closes = true }

  abbrev pub handled : Bool → World S → S × Option (Option Bytes × ℕ) → World S
  handled write_ok w (s, none) = record w { app = s; closes = true }
  handled write_ok w (s, some (payload, type)) = reply write_ok (record w { app = s }) payload type

  -- A frame counts for the role of its session, a PING does not.
  abbrev pub count_frame : Config → World S → Message → World S
  count_frame g w m = record w {
    role_counts =
        if g.has_policy && not (m.type == msg_ping)
        then elim w.conn.session [ none ↦ w.role_counts | some s ↦ count_command s w.role_counts ]
        else w.role_counts;
  }

  -- runHandler behind the gate; a dispatched job has no reply.
  unfoldable pub run_handler : Config → Handler S → Bool → World S → Message → Gated → World S
  unfolding reply count_command
  run_handler g f write_ok w m (answered type payload) = reply write_ok w (some payload) type
  run_handler g f write_ok w m dispatched = w
  run_handler g f write_ok w m passes = handled write_ok (count_frame g w m) (f w.app m)

  -- One frame: the gate and the handler.
  unfoldable pub one_frame : Config → Handler S → Bool → Bool → ℕ → World S → Message → World S
  unfolding gate_message run_handler
  one_frame g f room write_ok now w m =
      let (c, d, gated) = gate_message g room now w.conn w.desk m in
      run_handler g f write_ok (record w { conn = c; desk = d }) m gated

  -- The loop of onTrafficPlaintext with as many turns as the buffer has bytes: an AUTH that was
  -- dispatched stops it, as do a close and a frame that is not whole.
  unfoldable pub traffic :
      ℕ
      → Config
      → Handler S
      → (ℕ → Bool)
      → (ℕ → Bool)
      → (ℕ → ℕ)
      → World S
      → Bytes
      → Run (World S × Bytes)
  unfolding one_frame decode
  traffic zero g f room write_ok now w buf = done (w, buf)
  traffic (suc n) g f room write_ok now w buf = elim (decode buf g.max_msg_size blank) [
    | panics ↦ panics
    | done (m, failed short_read) ↦ done (w, buf)
    | done (m, failed err) ↦ done (record w { closes = true }, buf)
    | done (m, decoded len) ↦
        let w' = one_frame g f (room 0) (write_ok 0) (now 0) w m in
        let more =
          traffic n g f (λ i. room (suc i)) (λ i. write_ok (suc i)) (λ i. now (suc i)) w'
            (drop (5 + len) buf) in
        if w'.closes
        then done (w', buf)
        else if w'.conn.auth_pending
        then done (w', drop (5 + len) buf)
        else more
  ]

  -- onTrafficPlaintext
  unfoldable pub on_traffic :
      Config
      → Handler S
      → (ℕ → Bool)
      → (ℕ → Bool)
      → (ℕ → ℕ)
      → World S
      → Bytes
      → Run (World S × Bytes)
  unfolding traffic
  on_traffic g f room write_ok now w buf =
      if w.conn.auth_pending
      then done (w, buf)
      else traffic (length buf) g f room write_ok now w buf
