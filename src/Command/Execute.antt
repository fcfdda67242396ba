-- ===== src/Command/Execute.antt =====
-- Execute, Lookup and the handlers of internal/command.
pub mod Gate
pub mod Names
use tellstone.Prelude.{
  ℕ, zero, suc, ◌+◌, ◌-◌, Bool, true, false, not, ◌&&◌, ◌||◌, Option, none, some, List, [], ◌∷◌,
  ◌++◌, Bytes, codes, length, ltb, ◌==◌, if◌then◌else◌, get_or, take, drop, add64, map, lower,
}
use tellstone.Rbac.Catalog.{cmd_get, cmd_set, cmd_del}
use tellstone.Rbac.Role.{Session, is_allowed, count_command}
use tellstone.Rbac.AuthLog.{AuthLog, log_denied, inc_denied}
use tellstone.Command.Store
use tellstone.Command.Store.{Store}
use tellstone.Command.Ttl.{equal_fold_ascii, parse_set_ttl}

-- The one call of the wire encoder.
pub data Reply (Error : Type 0) : Type 0 where
  ok : Reply Error
  bulk : Bytes → Reply Error
  null : Reply Error
  int : ℕ → Reply Error
  denied : Bytes → Reply Error
  error_msg : Bytes → Reply Error
  storage_err : Error → Reply Error

pub data Name : Type 0 where
  get_cmd set_cmd del_cmd : Name

abbrev pub name_of : Name → Bytes
name_of get_cmd = codes "GET"
name_of set_cmd = codes "SET"
name_of del_cmd = codes "DEL"

abbrev pub rbac_id : Name → ℕ
rbac_id get_cmd = cmd_get
rbac_id set_cmd = cmd_set
rbac_id del_cmd = cmd_del

abbrev pub arity : Name → ℕ
arity get_cmd = 2
arity set_cmd = 3
arity del_cmd = 2

-- keyArg and keyArgs
abbrev pub keys : Name → List Bytes → List Bytes
keys get_cmd args = take 1 (drop 1 args)
keys set_cmd args = take 1 (drop 1 args)
keys del_cmd args = drop 1 args

-- Lookup
unfoldable pub lookup_in : List Name → Bytes → Option Name
unfolding equal_fold_ascii
lookup_in [] text = none
lookup_in (c ∷ rest) text =
    if equal_fold_ascii text (name_of c) then some c else lookup_in rest text

unfoldable pub lookup_command : Bytes → Option Name
unfolding lookup_in
lookup_command text = lookup_in (get_cmd ∷ set_cmd ∷ del_cmd ∷ []) text

-- The audit events of this layer: a denial with user, command and key, and a dispatch.
pub data Event : Type 0 where
  acl_deny : Bytes → Bytes → Bytes → Event
  dispatched : Bytes → Bytes → Bytes → Event

-- What Ctx points to and a call may change: the store, the policy's counters and log, the counters
-- of the roles, and the audit trail.
pub record State (S : Type 0) : Type 0 where
  pub store : S
  pub log : AuthLog
  pub role_counts : ℕ → ℕ
  pub audit : List Event

-- The rest of Ctx: the TTL hint of the frame, whether a policy is configured, the session, the
-- peer's address, whether the audit engine records the event, and the moment of the call. Both
-- frontends set an engine wherever they set a policy: on a nil engine a denial would panic.
pub record Ctx : Type 0 where
  pub ttl : ℕ
  pub has_policy : Bool
  pub session : Option Session
  pub remote : Bytes
  pub has_audit : Bool
  pub now : ℕ

abbrev pub username_or : Bytes → Option Session → Bytes
username_or d none = d
username_or d (some s) = s.username

-- denyKey; `none` is nil. A denied key that is a nil slice counts as a denied key here, where the
-- code would let it through; a frontend hands on no such argument.
unfoldable pub first_denied : Session → ℕ → List Bytes → Option Bytes
first_denied s id [] = none
first_denied s id (k ∷ ks) = if not (is_allowed s id k) then some k else first_denied s id ks

abbrev pub first_key : List Bytes → Option Bytes
first_key [] = none
first_key (k ∷ ks) = some k

unfoldable pub deny_key : Ctx → Name → List Bytes → Option Bytes
deny_key c cmd args = elim c.session [
  | none ↦ first_key (keys cmd args)
  | some s ↦ first_denied s (rbac_id cmd) (keys cmd args)
]

module _ {S Error : Type 0} (store : Store S Error) where
  -- The loop of DEL.
  unfoldable pub delete_all : S → ℕ → List Bytes → S × ℕ
  delete_all s n [] = (s, n)
  delete_all s n (k ∷ ks) =
      let (s', gone) = store.delete k s in delete_all s' (if gone then n + 1 else n) ks

  unfoldable pub run_get : List Bytes → S → S × Reply Error
  run_get args s =
      if not (length args == 2)
      then (s, error_msg (codes "ERR wrong number of arguments for 'get' command"))
      else (let (s', found) = store.get (get_or args 1 []) s in
          (s', elim found [ none ↦ null | some v ↦ bulk v ]))

  unfoldable pub run_set : ℕ → List Bytes → S → S × Reply Error
  unfolding parse_set_ttl
  run_set hint args s =
      if not (length args == 3) && not (length args == 5)
      then (s, error_msg (codes "ERR wrong number of arguments for 'set' command"))
      else elim (parse_set_ttl args) [
        | none ↦ (s, error_msg (codes "ERR syntax error"))
        | some ttl ↦
            let (s', failed) =
              store.set (get_or args 1 []) (get_or args 2 []) (if ttl == 0 then hint else ttl) s in
            (s', elim failed [ none ↦ ok | some e ↦ storage_err e ])
      ]

  unfoldable pub run_del : List Bytes → S → S × Reply Error
  unfolding delete_all
  run_del args s =
      if ltb (length args) 2
      then (s, error_msg (codes "ERR wrong number of arguments for 'del' command"))
      else (let (s', n) = delete_all s 0 (drop 1 args) in (s', int n))

  -- cmd.Handler(c)
  unfoldable pub handle : ℕ → Name → List Bytes → S → S × Reply Error
  handle hint get_cmd args s = run_get args s
  handle hint set_cmd args s = run_set hint args s
  handle hint del_cmd args s = run_del args s

  -- deny
  unfoldable pub deny : Ctx → Name → Bytes → State S → State S
  deny c cmd key st = record st {
    log =
        log_denied (inc_denied st.log) c.now (username_or [] c.session) c.remote
          (map lower (name_of cmd)) key;
    audit =
        if c.has_audit
        then st.audit ++ acl_deny (username_or [] c.session) (map lower (name_of cmd)) key ∷ []
        else st.audit;
  }

  -- CountCommand and auditCommand, on the way to the handler
  unfoldable pub admit : Ctx → Name → List Bytes → State S → State S
  admit c cmd args st = record st {
    role_counts =
        if c.has_policy
        then elim c.session [ none ↦ st.role_counts | some s ↦ count_command s st.role_counts ]
        else st.role_counts;
    audit =
        if c.has_audit
        then st.audit
          ++ dispatched (username_or (codes "default") c.session) (map lower (name_of cmd))
              (get_or args 1 [])
            ∷ []
        else st.audit;
  }

  abbrev pub dispatch : Ctx → Name → List Bytes → State S → State S × Option (Reply Error)
  dispatch c cmd args st =
      let st' = admit c cmd args st in
      let (s', r) = handle c.ttl cmd args st'.store in (record st' { store = s' }, some r)

  -- The part of Execute behind Lookup.
  unfoldable pub execute_command :
      Ctx → Name → List Bytes → State S → State S × Option (Reply Error)
  execute_command c cmd args st =
      if ltb (length args) (arity cmd)
      then (
        st,
        some (
            error_msg (
              codes "ERR wrong number of arguments for '"
              ++ (map lower (name_of cmd) ++ codes "' command"))),
      )
      else if c.has_policy
      then elim (deny_key c cmd args) [
        | some key ↦ (deny c cmd key st, some (denied (map lower (name_of cmd))))
        | none ↦ dispatch c cmd args st
      ]
      else dispatch c cmd args st

  -- Execute; no reply says that the frontend has to handle the command itself.
  unfoldable pub execute : Ctx → List Bytes → State S → State S × Option (Reply Error)
  unfolding execute_command
  execute c [] st = (st, none)
  execute c (name ∷ args) st = elim (lookup_command name) [
    | none ↦ (st, none)
    | some cmd ↦ execute_command c cmd (name ∷ args) st
  ]
