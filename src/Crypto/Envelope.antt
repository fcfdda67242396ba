-- ===== src/Crypto/Envelope.antt =====
-- internal/crypto/envelope.go: a data key (DEK) wrapped by a key encryption key (KEK) in a file. SHA-256
-- and chacha20poly1305.New are the record `Primitives`. A directory is a table from names to the
-- bytes of its files; a system call's success is an argument.
use tellstone.Prelude.{
  ℕ, ◌+◌, Bool, true, false, not, ◌&&◌, Option, none, some, [], ◌∷◌, ◌++◌, Bytes, bytes_eq, codes,
  length, take, drop, ltb, ◌==◌, get_or, if◌then◌else◌,
}
use tellstone.Prelude.Table.{Table, lookup, insert, erase}
use tellstone.Crypto.Cipher
use tellstone.Crypto.Cipher.{
  Aead, disabled, new_engine, enabled, encrypt_in_place, decrypt_in_place,
}

pub record Primitives : Type 0 where
  pub construct : Bytes → Option Aead
  pub digest : Bytes → Bytes

abbrev pub env_version : ℕ
env_version = 1

abbrev pub fingerprint_len : ℕ
fingerprint_len = 16

-- FingerprintBytes
unfoldable pub fingerprint : Primitives → Bytes → Bytes
fingerprint p key = take fingerprint_len (p.digest key)

-- `enabled` is that of the engine; the engine is nil in pass-through mode.
pub record Envelope : Type 0 where
  pub kek : Bytes
  pub dek : Bytes
  pub engine : Cipher.Engine

-- NewEnvelope; `none` is an error
unfoldable pub new_envelope : Primitives → Bytes → Option Envelope
unfolding new_engine fingerprint
new_envelope p key = elim (new_engine p.construct (fingerprint p) key) [
  | none ↦ none
  | some c ↦
      if length key == 0
      then some (record { kek = key; dek = []; engine = disabled })
      else if length key == 32
      then some (record { kek = key; dek = []; engine = c })
      else none
]

-- GenerateDEK, with the 32 bytes of rnd
unfoldable pub generate_dek : Envelope → Option Bytes → Option Envelope
generate_dek e random =
    if not (enabled e.engine)
    then some e
    else elim random [ none ↦ none | some key ↦ some (record e { dek = key }) ]

-- encrypt and decrypt of an envelope
unfoldable pub wrap : Envelope → Option Bytes → Option Bytes
unfolding encrypt_in_place
wrap e entropy = if enabled e.engine then encrypt_in_place e.engine entropy e.dek else some e.kek

unfoldable pub unwrap : Envelope → Bytes → Option Bytes
unfolding decrypt_in_place
unwrap e wrapped = if enabled e.engine then decrypt_in_place e.engine wrapped else some e.kek

abbrev pub Directory : Type 0
Directory = Table Bytes

-- The outcomes of the system calls of one replacement of a file. A write that fails leaves as many
-- bytes as it says; `parent_ok` is about the directory's own sync.
pub record Calls : Type 0 where
  pub open_ok : Bool
  pub write_fault : Option ℕ
  pub sync_ok : Bool
  pub close_ok : Bool
  pub remove_ok : Bool
  pub rename_ok : Bool
  pub parent_ok : Bool

abbrev pub tmp_of : Bytes → Bytes
tmp_of name = name ++ codes ".tmp"

-- os.Remove(tmp), and what the function reports where that succeeds.
abbrev pub remove_tmp : Bool → Calls → Bytes → Directory → Directory × Bool
remove_tmp reported c name d = if c.remove_ok then (erase (tmp_of name) d, reported) else (d, false)

-- file.Close() and os.Remove(tmp) after a failed write or sync.
abbrev pub abandon : Bool → Calls → Bytes → Directory → Directory × Bool
abandon reported c name d = if c.close_ok then remove_tmp reported c name d else (d, false)

-- The steps behind a write that succeeded.
unfoldable pub settle : Bool → Calls → Bytes → Bytes → Directory → Directory × Bool
settle reported c name bytes d =
    if not c.sync_ok
    then abandon reported c name d
    else if not c.close_ok
    then remove_tmp reported c name d
    else if not c.rename_ok
    then remove_tmp reported c name d
    else (insert name bytes (erase (tmp_of name) d), c.parent_ok)

-- A file's bytes written to name.tmp and renamed, with what it reports after a failure whose cleanup
-- succeeds.
unfoldable pub replace_file : Bool → Calls → Bytes → Bytes → Directory → Directory × Bool
unfolding settle
replace_file reported c name bytes d = if not c.open_ok then (d, false) else elim c.write_fault [
  | some n ↦ abandon reported c name (insert (tmp_of name) (take n bytes) d)
  | none ↦ settle reported c name bytes (insert (tmp_of name) bytes d)
]

abbrev pub header : Primitives → Bytes → Bytes
header p kek = env_version ∷ fingerprint p kek

-- Store: the directory is made first. Behind a failure it returns an error whatever the cleanup does.
unfoldable pub store :
    Primitives → Envelope → Bool → Calls → Option Bytes → Bytes → Directory → Directory × Bool
unfolding wrap replace_file
store p e mkdir_ok c entropy name d =
    if not (enabled e.engine)
    then (d, true)
    else if not mkdir_ok
    then (d, false)
    else elim (wrap e entropy) [
      | none ↦ (d, false)
      | some wrapped ↦ replace_file false c name (header p e.kek ++ wrapped) d
    ]

abbrev pub header_len : ℕ
header_len = 1 + fingerprint_len

abbrev pub is_supported : Bytes → Bool
is_supported raw = not (ltb (length raw) header_len) && get_or raw 0 0 == env_version

-- The part of Load behind os.ReadFile, on an enabled envelope.
unfoldable pub load_raw : Primitives → Envelope → Bytes → Option Bytes
unfolding unwrap
load_raw p e raw =
    if not (is_supported raw)
    then none
    else if not (bytes_eq (take fingerprint_len (drop 1 raw)) (fingerprint p e.kek))
    then none
    else unwrap e (drop header_len raw)

-- Load: the envelope with its data key; `none` is an error. In pass-through mode nothing is read.
unfoldable pub load : Primitives → Envelope → Bytes → Directory → Option Envelope
unfolding load_raw
load p e name d = if not (enabled e.engine) then some e else elim (lookup name d) [
  | none ↦ none
  | some raw ↦ elim (load_raw p e raw) [ none ↦ none | some dek ↦ some (record e { dek = dek }) ]
]
