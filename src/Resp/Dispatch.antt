-- ===== src/Resp/Dispatch.antt =====
-- dispatch of internal/resp/server.go. The handlers of COMMAND, ROLE and ACL are a parameter on the
-- desk, since they have no store.
use tellstone.Prelude.{
  ℕ, Bool, true, false, not, ◌&&◌, Option, none, some, List, [], ◌∷◌, ◌++◌, Bytes, codes, length,
  leb, ◌==◌, get_or, if◌then◌else◌,
}
use tellstone.Rbac.Role.{Session, allows_command, count_command}
use tellstone.Rbac.AuthLog.{log_denied, inc_denied}
use tellstone.Command.Store.{Store}
use tellstone.Command.Execute
use tellstone.Command.Execute.{Reply, execute, username_or}
use tellstone.Resp.Protocol.{
  append_number, append_bulk, append_simple_string, append_error, append_null_bulk, crlf,
  equal_fold,
}
use tellstone.Resp.Session.{Conn, Config, Desk, auth, resp_ok}

-- The world of a connection.
pub record World (S : Type 0) : Type 0 where
  pub store : S
  pub desk : Desk
  pub role_counts : ℕ → ℕ
  pub audit : List Execute.Event

-- Whether the queue of the workers has room, and the clock, at one command.
pub record Env : Type 0 where
  pub room : Bool
  pub now : ℕ

pub data Family : Type 0 where
  command_family role_family acl_family : Family

abbrev pub family_id : Family → ℕ
family_id command_family = 5
family_id role_family = 7
family_id acl_family = 8

abbrev pub family_name : Family → Bytes
family_name command_family = codes "command"
family_name role_family = codes "role"
family_name acl_family = codes "acl"

abbrev pub Admin : Type 0
Admin = Family → Option Session → List Bytes → Desk → Desk × Bytes

-- respReply
unfoldable pub reply_bytes : {Error : Type 0} → (Error → Bytes) → Reply Error → Bytes
unfolding append_bulk append_null_bulk append_simple_string append_error append_number
reply_bytes message Reply.ok = resp_ok
reply_bytes message (Reply.bulk b) = append_bulk b
reply_bytes message Reply.null = append_null_bulk
reply_bytes message (Reply.int n) = b':' ∷ append_number n ++ crlf
reply_bytes message (Reply.denied cmd) =
    append_error (codes "NOPERM no permission for '" ++ (cmd ++ codes "' command on this key"))
reply_bytes message (Reply.error_msg s) = append_error s
reply_bytes message (Reply.storage_err e) = append_error (codes "ERR " ++ message e)

-- dispatchSTARTTLS
unfoldable pub start_tls : Config → Conn → List Bytes → Conn × Bytes
start_tls g c args =
    if not (length args == 1)
    then (c, append_error (codes "ERR wrong number of arguments for 'starttls' command"))
    else if c.has_tls
    then (c, append_error (codes "ERR connection is already encrypted"))
    else if not g.has_certificate
    then (c, append_error (codes "ERR TLS not configured"))
    else (record c { upgrade_tls = true }, resp_ok)

abbrev pub no_auth : Bytes
no_auth = append_error (codes "NOAUTH Authentication required")

-- authorizedCmd
unfoldable pub authorized : Config → Conn → ℕ → Bool
authorized g c id =
    if g.has_policy then elim c.session [ none ↦ false | some s ↦ allows_command s id ] else true

module _ {S Error : Type 0} (store : Store S Error) (message : Error → Bytes) (admin : Admin) where
  -- The connection, the world, the reply, and whether an AUTH was dispatched.
  abbrev pub Dispatched : Type 0
  Dispatched = Conn × World S × Bytes × Bool

  abbrev pub state_of : World S → Execute.State S
  state_of w = record {
    store = w.store;
    log = w.desk.log;
    role_counts = w.role_counts;
    audit = w.audit;
  }

  abbrev pub with_state : World S → Execute.State S → World S
  with_state w st = record {
    store = st.store;
    desk = record w.desk { log = st.log };
    role_counts = st.role_counts;
    audit = st.audit;
  }

  -- authorizedCmd, countCommand or deniedReply, and the handler of a family
  unfoldable pub run_family : Config → Env → Conn → World S → Family → List Bytes → Dispatched
  unfolding authorized
  run_family g e c w f args =
      if authorized g c (family_id f)
      then (let (desk, out) = admin f c.session args w.desk in
          let counts =
            if g.has_policy
            then elim c.session [ none ↦ w.role_counts | some s ↦ count_command s w.role_counts ]
            else w.role_counts in
          (c, record w { desk = desk; role_counts = counts }, out, false))
      else (
        c,
        record w {
          desk = record w.desk {
            log =
                log_denied (inc_denied w.desk.log) e.now (username_or [] c.session) c.remote
                  (family_name f) [];
          };
        },
        append_error (codes "NOPERM no permission for '" ++ (family_name f ++ codes "' command")),
        false,
      )

  -- The switch of dispatch, behind command.Execute.
  unfoldable pub run_other : Config → Env → Conn → World S → Bytes → List Bytes → Dispatched
  unfolding equal_fold run_family start_tls
  run_other g e c w cmd args =
      if equal_fold cmd (codes "PING")
      then (
        c,
        w,
        (if leb 2 (length args)
            then append_bulk (get_or args 1 [])
            else append_simple_string (codes "PONG")),
        false,
      )
      else if equal_fold cmd (codes "COMMAND")
      then run_family g e c w command_family args
      else if equal_fold cmd (codes "ROLE")
      then run_family g e c w role_family args
      else if equal_fold cmd (codes "ACL")
      then run_family g e c w acl_family args
      else if equal_fold cmd (codes "QUIT")
      then (record c { close_after_reply = true }, w, resp_ok, false)
      else if g.start_tls && equal_fold cmd (codes "STARTTLS")
      then (let (c', out) = start_tls g c args in (c', w, out, false))
      else (c, w, append_error (codes "ERR unknown command '" ++ (cmd ++ codes "'")), false)

  -- The reply of command.Execute, or the switch where it has none.
  unfoldable pub after_execute :
      Config
      → Env
      → Conn
      → World S
      → Bytes
      → List Bytes
      → Execute.State S × Option (Reply Error)
      → Dispatched
  unfolding run_other reply_bytes
  after_execute g e c w cmd args (st, some r) = (c, with_state w st, reply_bytes message r, false)
  after_execute g e c w cmd args (st, none) = run_other g e c (with_state w st) cmd args

  abbrev pub ctx_of : Config → Env → Conn → Execute.Ctx
  ctx_of g e c = record {
    ttl = 0;
    has_policy = g.has_policy;
    session = c.session;
    remote = c.remote;
    has_audit = g.has_audit;
    now = e.now;
  }

  -- The part of dispatch behind the authentication gate.
  unfoldable pub run_command : Config → Env → Conn → World S → Bytes → List Bytes → Dispatched
  unfolding after_execute execute
  run_command g e c w cmd args =
      after_execute g e c w cmd args (execute store (ctx_of g e c) args (state_of w))

  -- dispatch
  unfoldable pub dispatch : Config → Env → Conn → World S → List Bytes → Dispatched
  unfolding equal_fold auth run_command start_tls
  dispatch g e c w [] = (c, w, append_error (codes "ERR empty command"), false)
  dispatch g e c w (cmd ∷ args) =
      if equal_fold cmd (codes "AUTH")
      then (let (c', d, out, async) = auth g e.room e.now c w.desk (cmd ∷ args) in
          (c', record w { desk = d }, out, async))
      else if not c.authenticated && (g.start_tls && equal_fold cmd (codes "STARTTLS"))
      then (let (c', out) = start_tls g c (cmd ∷ args) in (c', w, out, false))
      else if not c.authenticated
          && (not (equal_fold cmd (codes "PING")) && not (equal_fold cmd (codes "QUIT")))
      then (c, w, no_auth, false)
      else run_command g e c w cmd (cmd ∷ args)
