-- ===== src/Crypto/Rewrap.antt =====
-- internal/crypto/rewrap.go: the rotation of the KEK over all envelopes of a directory. The table of
-- a directory is in the order of its names, which filepath.Glob and sort.Strings give.
pub mod Keeps
pub mod Safe
pub mod Written
use tellstone.Prelude.{
  ℕ, zero, suc, ◌+◌, ◌-◌, Bool, true, false, not, ◌&&◌, ◌||◌, Option, none, some, List, [], ◌∷◌,
  ◌++◌, Bytes, bytes_eq, codes, has_prefix, length, take, drop, ltb, ◌==◌, if◌then◌else◌,
}
use tellstone.Prelude.Table.{lookup, insert}
use tellstone.Crypto.Envelope.{
  Primitives, fingerprint, fingerprint_len, header_len, is_supported, header, Envelope,
  new_envelope, wrap, unwrap, Directory, Calls, replace_file,
}

abbrev pub has_suffix : Bytes → Bytes → Bool
has_suffix s p = not (ltb (length s) (length p)) && bytes_eq (drop (length s - length p) s) p

-- shard-*.env and audit.env
unfoldable pub is_envelope : Bytes → Bool
is_envelope name =
    (has_prefix name (codes "shard-") && has_suffix name (codes ".env"))
    || bytes_eq name (codes "audit.env")

-- findEnvelopeFiles
unfoldable pub find_envelope_files : Directory → List Bytes
unfolding is_envelope
find_envelope_files [] = []
find_envelope_files ((name, raw) ∷ d) =
    let rest = find_envelope_files d in if is_envelope name then name ∷ rest else rest

pub data Status : Type 0 where
  has_old has_new has_other : Status

pub record Entry : Type 0 where
  pub name : Bytes
  pub status : Status
  pub wrapped : Bytes

pub data Refusal : Type 0 where
  bad_old_length bad_new_length same_keys no_files unreadable old_key_mismatch mixed_keys no_cipher
        no_unwrap no_wrap no_backup no_write :
      Refusal

-- RewrapResult, or an error
pub data Result : Type 0 where
  refused : Refusal → Result
  finished : ℕ → ℕ → ℕ → Result

abbrev pub status_of : Primitives → Bytes → Bytes → Bytes → Status
status_of p old new raw =
    if bytes_eq (take fingerprint_len (drop 1 raw)) (fingerprint p old)
    then has_old
    else if bytes_eq (take fingerprint_len (drop 1 raw)) (fingerprint p new)
    then has_new
    else has_other

abbrev pub entry : Primitives → Bytes → Bytes → Bytes → Bytes → Entry
entry p old new name raw = record {
  name = name;
  status = status_of p old new raw;
  wrapped = drop header_len raw;
}

-- The loop that reads and sorts the envelopes; a file that is missing, unreadable or of another
-- format is `none`.
unfoldable pub read_entries :
    Primitives → Bytes → Bytes → Directory → List Bytes → Option (List Entry)
read_entries p old new d [] = some []
read_entries p old new d (name ∷ names) = elim (lookup name d) [
  | none ↦ none
  | some raw ↦
      let rest = read_entries p old new d names in
      if not (is_supported raw)
      then none
      else elim rest [ none ↦ none | some es ↦ some (entry p old new name raw ∷ es) ]
]

abbrev pub is_old : Status → Bool
is_old has_old = true
is_old _ = false

abbrev pub is_new : Status → Bool
is_new has_new = true
is_new _ = false

abbrev pub is_other : Status → Bool
is_other has_other = true
is_other _ = false

abbrev pub count : (Status → Bool) → List Entry → ℕ
count test [] = 0
count test (e ∷ es) = if test e.status then suc (count test es) else count test es

pub record Prepared : Type 0 where
  pub target : Bytes
  pub buf : Bytes

pub data Preparation : Type 0 where
  unprepared : Refusal → Preparation
  prepared : List Prepared → Preparation

abbrev pub prepend : Prepared → Preparation → Preparation
prepend x (unprepared r) = unprepared r
prepend x (prepared xs) = prepared (x ∷ xs)

-- One entry of phase 1, between the keys' envelopes, and the rest of them.
abbrev pub prepare_one :
    Primitives → Envelope → Envelope → Option Bytes → Entry → Preparation → Preparation
prepare_one p old new entropy e rest = elim (unwrap old e.wrapped) [
  | none ↦ unprepared no_unwrap
  | some dek ↦ elim (wrap (record new { dek = dek }) entropy) [
    | none ↦ unprepared no_wrap
    | some wrapped ↦ prepend (record { target = e.name; buf = header p new.kek ++ wrapped }) rest
  ]
]

-- Phase 1; an entry that already has the new key is skipped. `entropies` are the random nonces.
unfoldable pub prepare :
    Primitives → Envelope → Envelope → (ℕ → Option Bytes) → List Entry → Preparation
unfolding wrap unwrap
prepare p old new entropies [] = prepared []
prepare p old new entropies (e ∷ es) =
    let rest = prepare p old new (λ i. entropies (suc i)) es in
    if is_new e.status then rest else prepare_one p old new (entropies 0) e rest

-- atomicWrite: `err` is overwritten by the results of its cleanup, so a failure whose cleanup
-- succeeds returns nil.
unfoldable pub atomic_write : Calls → Bytes → Bytes → Directory → Directory × Bool
unfolding replace_file
atomic_write c name bytes d = replace_file true c name bytes d

-- The outcomes of the system calls for one file: those of copyFile, which may leave a part of the
-- backup, and those of atomicWrite.
pub record Effects : Type 0 where
  pub copy_fault : Option ℕ
  pub calls : Calls

abbrev pub bak_of : Bytes → Bytes
bak_of name = name ++ codes ".bak"

-- copyFile, behind the read of the file
abbrev pub copy_read : Option ℕ → Bytes → Directory → Option Bytes → Directory × Bool
copy_read fault name d none = (d, false)
copy_read none name d (some raw) = (insert (bak_of name) raw d, true)
copy_read (some n) name d (some raw) = (insert (bak_of name) (take n raw) d, false)

-- The backup of a file where it is wanted.
unfoldable pub back_up : Bool → Option ℕ → Bytes → Directory → Directory × Bool
back_up retain fault name d = if retain then copy_read fault name d (lookup name d) else (d, true)

-- Phase 2, with the number of files written so far.
unfoldable pub write_all :
    Bool → (ℕ → Effects) → ℕ → List Prepared → Directory → Directory × ℕ × Option Refusal
unfolding back_up atomic_write
write_all retain fx n [] d = (d, n, none)
write_all retain fx n (x ∷ xs) d =
    let (d₁, copied) = back_up retain (fx 0).copy_fault x.target d in
    let (d₂, written) = atomic_write (fx 0).calls x.target x.buf d₁ in
    let rest = write_all retain (λ i. fx (suc i)) (n + 1) xs d₂ in
    if not copied
    then (d₁, n, some no_backup)
    else if not written
    then (d₂, n, some no_write)
    else rest

-- The part of RewrapEnvelopes behind the counts.
unfoldable pub rewrap_entries :
    Primitives
    → Envelope
    → Envelope
    → Bool
    → (ℕ → Effects)
    → (ℕ → Option Bytes)
    → List Entry
    → Directory
    → Directory × Result
unfolding prepare write_all
rewrap_entries p old new retain fx entropies es d = elim (prepare p old new entropies es) [
  | unprepared r ↦ (d, refused r)
  | prepared xs ↦
      let (d', n, stopped) = write_all retain fx 0 xs d in
      (d', elim stopped [ some r ↦ refused r | none ↦ finished n (count is_new es) (length es) ])
]

-- The switch on the counts, before anything is written.
unfoldable pub check_entries : List Entry → Option Result
check_entries es =
    if count is_old es == 0 && not (count is_new es == 0)
    then some (finished 0 (count is_new es) (length es))
    else if count is_old es == 0
    then some (refused old_key_mismatch)
    else if not (count is_other es == 0)
    then some (refused mixed_keys)
    else none

-- The guards on the keys.
unfoldable pub check_keys : Bytes → Bytes → Option Refusal
check_keys old new =
    if not (length old == 32)
    then some bad_old_length
    else if not (length new == 32)
    then some bad_new_length
    else if bytes_eq old new
    then some same_keys
    else none

-- RewrapEnvelopes
unfoldable pub rewrap_envelopes :
    Primitives
    → Bytes
    → Bytes
    → Bool
    → (ℕ → Effects)
    → (ℕ → Option Bytes)
    → Directory
    → Directory × Result
unfolding check_keys check_entries find_envelope_files read_entries rewrap_entries new_envelope
rewrap_envelopes p old new retain fx entropies d = elim (check_keys old new) [
  | some r ↦ (d, refused r)
  | none ↦ elim (find_envelope_files d) [
    | [] ↦ (d, refused no_files)
    | name ∷ names ↦ elim (read_entries p old new d (name ∷ names)) [
      | none ↦ (d, refused unreadable)
      | some es ↦ elim (check_entries es) [
        | some r ↦ (d, r)
        | none ↦ elim (new_envelope p old) [
          | none ↦ (d, refused no_cipher)
          | some o ↦ elim (new_envelope p new) [
            | none ↦ (d, refused no_cipher)
            | some n ↦ rewrap_entries p o n retain fx entropies es d
          ]
        ]
      ]
    ]
  ]
]
