-- ===== src/Rbac/AuthLog.antt =====
-- internal/rbac/log.go: the ring buffer behind ACL LOG, and its two counters. `buffer` is nil until
-- the first entry; a moment is a number.
pub mod Ring
use tellstone.Prelude.{
  ℕ, zero, suc, ◌+◌, ◌-◌, ◌%◌, List, [], ◌∷◌, ◌++◌, Bytes, codes, length, get_or, set, replicate,
  add64, ltb, ◌==◌, if◌then◌else◌,
}

abbrev pub default_cap : ℕ
default_cap = 100

pub record Entry : Type 0 where
  pub timestamp : ℕ
  pub username : Bytes
  pub remote_addr : Bytes
  pub reason : Bytes

pub record AuthLog : Type 0 where
  pub buffer : List Entry
  pub head : ℕ
  pub len : ℕ
  pub auth_failures : ℕ
  pub denied_commands : ℕ

-- The zero value of an entry
abbrev pub blank : Entry
blank = record { timestamp = 0; username = []; remote_addr = []; reason = [] }

abbrev pub new_log : AuthLog
new_log = record { buffer = []; head = 0; len = 0; auth_failures = 0; denied_commands = 0 }

unfoldable pub allocated : AuthLog → List Entry
allocated l = if length l.buffer == 0 then replicate default_cap blank else l.buffer

-- appendLocked
unfoldable pub append : AuthLog → Entry → AuthLog
append l entry = record l {
  buffer = set (allocated l) l.head entry;
  head = (l.head + 1) % length (allocated l);
  len = if ltb l.len (length (allocated l)) then l.len + 1 else l.len;
}

-- LogAuthFailure
unfoldable pub log_auth_failure : AuthLog → ℕ → Bytes → Bytes → Bytes → AuthLog
log_auth_failure l now username remote_addr reason =
    append (record l { auth_failures = add64 l.auth_failures 1 })
      (record { timestamp = now; username = username; remote_addr = remote_addr; reason = reason })

-- LogDenied
unfoldable pub log_denied : AuthLog → ℕ → Bytes → Bytes → Bytes → Bytes → AuthLog
log_denied l now username remote_addr cmd key = append l (record {
  timestamp = now;
  username = username;
  remote_addr = remote_addr;
  reason = codes "NOPERM command=" ++ (cmd ++ (codes " key=" ++ key));
})

-- IncDenied
unfoldable pub inc_denied : AuthLog → AuthLog
inc_denied l = record l { denied_commands = add64 l.denied_commands 1 }

-- SeedAuthLog
unfoldable pub seed : AuthLog → List Entry → AuthLog
seed l [] = l
seed l (entry ∷ entries) = seed (append l entry) entries

-- The loop of AuthLog: n entries from a place on, round the buffer.
unfoldable pub window : List Entry → ℕ → ℕ → List Entry
window buffer start zero = []
window buffer start (suc n) =
    get_or buffer (start % length buffer) blank ∷ window buffer (start + 1) n

-- AuthLog
unfoldable pub auth_log : AuthLog → List Entry
auth_log l =
    if l.len == 0
    then []
    else window l.buffer
        (if ltb l.head l.len then l.head + length l.buffer - l.len else l.head - l.len) l.len
