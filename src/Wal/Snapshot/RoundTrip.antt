-- ===== src/Wal/Snapshot/RoundTrip.antt =====
-- A snapshot file reads back as the entries that were written, and a stream that ends inside an entry
-- is no body.
use mathlib.Core.List.{append_assoc, append-nil}
use tellstone.Prelude.{
  ℕ, zero, suc, ◌<◌, ◌≤◌, ◌≡◌, refl, ap, ◌∙◌, sym, true, false, none, some, List, [], ◌∷◌, ◌++◌,
  Bytes, bytes_eq, bytes_eq_refl, ltb, ◌==◌, length, take, drop, arith, length-append, take-append,
  drop-append, u64_mod,
}
use tellstone.Wal.Format.{Record, header_size, header, encode, read_record, get_le32, get_le64}
use tellstone.Wal.Format.Torn.{read_record-encode, get_le64-le64}
use tellstone.Wal.Replay.Crash.{encode_onto, AllSized, length-encode_onto}
use tellstone.Wal.Snapshot.{
  snap_magic, base_header, build_header, encode_all, snapshot_bytes, parse_entries, entries,
  hashed_of, read_snapshot,
}

pub encode_all-onto :
    (rs : List Record) (tail : Bytes) → encode_all rs ++ tail ≡ encode_onto rs tail
unfolding encode encode_onto
encode_all-onto [] tail = refl
encode_all-onto (r ∷ rs) tail =
    simp append_assoc (ap (λ s. header r ++ (r.key ++ (r.value ++ s))) (encode_all-onto rs tail))

pub encode_all_lem : (rs : List Record) → encode_all rs ≡ encode_onto rs []
encode_all_lem rs = sym (append-nil (encode_all rs)) ∙ encode_all-onto rs []

length-onto :
    (r : Record) (s : Bytes) → header_size ≤ length (header r ++ (r.key ++ (r.value ++ s)))
unfolding header
length-onto r s = omega arith

-- The entries of a body, in front of a tail that is none.
pub parse_entries-encode_onto :
    (n : ℕ) (rs : List Record)
    → length rs ≤ n
    → AllSized rs
    → parse_entries n (encode_onto rs []) ≡ some rs
unfolding parse_entries encode_onto
parse_entries-encode_onto zero [] k h = refl
parse_entries-encode_onto zero (r ∷ rs) k h = absurd (omega arith)
parse_entries-encode_onto (suc n) [] k h = refl
parse_entries-encode_onto (suc n) (r ∷ rs) k h = ground (
  arith,
  length-onto r (encode_onto rs []),
  read_record-encode r (encode_onto rs []) h.0,
  parse_entries-encode_onto n rs (omega arith) h.1,
)

pub parse_entries-torn :
    (n : ℕ) (rs : List Record) (tail : Bytes)
    → AllSized rs
    → 0 < length tail
    → read_record tail ≡ none
    → parse_entries n (encode_onto rs tail) ≡ none
unfolding parse_entries encode_onto
parse_entries-torn zero [] tail h some_left t = ground (arith, some_left)
parse_entries-torn zero (r ∷ rs) tail h some_left t =
    ground (arith, length-onto r (encode_onto rs tail))
parse_entries-torn (suc n) [] tail h some_left t = ground (arith, some_left, t)
parse_entries-torn (suc n) (r ∷ rs) tail h some_left t = ground (
  arith,
  length-onto r (encode_onto rs tail),
  read_record-encode r (encode_onto rs tail) h.0,
  parse_entries-torn n rs tail h.1 some_left t,
)

check_lem :
    (count now c : ℕ) (rest : Bytes)
    → c < u64_mod
    → get_le64 (drop 24 (base_header 2 count now c ++ rest)) ≡ c
check_lem count now c rest small = omega (arith, get_le64-le64 c rest, small)

short_lem : (n : ℕ) → ltb n 48 ≡ false → ltb n 32 ≡ false
short_lem n h = ground arith

equal_lem : (n : ℕ) → (n == n) ≡ true
equal_lem n = ground arith

module _ (sum : Bytes → ℕ) where
  read_lem :
      (fp file body : Bytes) (rs : List Record)
      → ltb (length file) 48 ≡ false
      → bytes_eq (take 4 file) snap_magic ≡ true
      → get_le32 (drop 4 file) ≡ 2
      → take 16 (drop 32 file) ≡ fp
      → drop 48 file ≡ body
      → parse_entries (length file) body ≡ some rs
      → sum (hashed_of file) ≡ get_le64 (drop 24 file)
      → read_snapshot sum fp file ≡ entries rs
  unfolding read_snapshot
  read_lem fp file body rs long magic version f b parsed same =
      let short = short_lem (length file) long in
      let found : bytes_eq (take 16 (drop 32 file)) fp ≡ true = rw f (bytes_eq_refl fp) in
      rw (short, magic, version, long, found, b, parsed, same, equal_lem) refl

  read_parts :
      (count now c : ℕ) (fp body : Bytes) (rs : List Record)
      → length fp ≡ 16
      → c < u64_mod
      → sum (build_header now fp ++ body) ≡ c
      → parse_entries (length (base_header 2 count now c ++ (fp ++ body))) body ≡ some rs
      → read_snapshot sum fp (base_header 2 count now c ++ (fp ++ body)) ≡ entries rs
  read_parts count now c fp body rs l small same parsed =
      read_lem fp (base_header 2 count now c ++ (fp ++ body)) body rs
        (ground (arith, length-append {0} fp body, l)) (bytes_eq_refl snap_magic) refl
        (ap (λ n. take n (fp ++ body)) (sym l) ∙ take-append fp body)
        (ap (λ n. drop n (fp ++ body)) (sym l) ∙ drop-append fp body) parsed
        (same ∙ sym (check_lem count now c (fp ++ body) small))

  pub read_snapshot-snapshot_bytes :
      ((s : Bytes) → sum s < u64_mod)
      → (now : ℕ) (fp : Bytes) (rs : List Record) → length fp ≡ 16
      → AllSized rs
      → read_snapshot sum fp (snapshot_bytes sum now fp rs) ≡ entries rs
  unfolding snapshot_bytes
  read_snapshot-snapshot_bytes fits now fp rs l h =
      read_parts (length rs) now _ fp (encode_all rs) rs l
        (fits (build_header now fp ++ encode_all rs)) refl
        (rw (encode_all_lem rs) (
          parse_entries-encode_onto _ rs
            (omega (arith, length-encode_onto rs [], length-append {0} fp (encode_onto rs []))) h))
