-- ===== src/Command.antt =====
-- internal/command: GET, SET and DEL as both frontends run them. The storage seam, the transport and
-- the RBAC policy meet here. A call makes one reply; the audit trail is the list of events. A nil
-- policy, session or audit engine is `none` or a flag. Arguments are byte slices.
pub mod Store
pub mod Ttl
pub mod Execute
