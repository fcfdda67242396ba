-- ===== src/Wal/Snapshot/Outcome.antt =====
-- What a dump leaves in the place of the snapshot, whichever call fails.
use mathlib.Core.List.{append_assoc, append-nil}
use tellstone.Prelude.{
  ℕ, zero, suc, ◌-◌, ◌<◌, ◌≡◌, ◌⊎◌, inl, inr, refl, ap, ◌∙◌, sym, Bool, Bool-cases, true, false,
  Option, none, some, List, [], ◌∷◌, ◌++◌, Bytes, bytes_eq, bytes_eq_iff, bytes_eq_refl, not, ◌&&◌,
  codes, ltb, length, take, arith, length-append, length-take, take-append_ge, take-append_le,
  u64_mod,
}
use tellstone.Prelude.Table.{Table, lookup, insert, erase, lookup-insert, lookup-erase}
use tellstone.Storage.Engine
use tellstone.Storage.Engine.{for_each}
use tellstone.Wal.Format.{Record, header, encode, read_record}
use tellstone.Wal.Format.Torn.{IsSized, read_record-take}
use tellstone.Wal.Replay.Crash.{encode_onto, AllSized, length-encode_onto}
use tellstone.Wal.Snapshot.{
  snapshot_bytes, parse_entries, entries_of, serialize_engine, entries, read_snapshot,
}
use tellstone.Wal.Snapshot.Dumping.{
  DumpCalls, tmp_of, clean_up, dump_file, snapshot_write, child_finish, child_write, ForkCalls,
  run_child, fork_dump,
}
use tellstone.Wal.Snapshot.RoundTrip.{
  encode_all_lem, parse_entries-encode_onto, parse_entries-torn, read_snapshot-snapshot_bytes,
}

tmp_of-differs : (name : Bytes) → bytes_eq (tmp_of name) name ≡ false
tmp_of-differs name = elim (Bool-cases (bytes_eq (tmp_of name) name)) [
  | inl same ↦
      let e = (bytes_eq_iff (tmp_of name) name).0 same in
      absurd (omega (arith, length-append {0} name (codes ".tmp"), ap length e))
  | inr differs ↦ differs
]

-- A failed dump behind which the file is as it was.
abbrev pub Untouched : Bytes → Table Bytes → Table Bytes × Bool → Type 0
Untouched name d x = (lookup name x.0 ≡ lookup name d) × (x.1 ≡ false)

clean_up-Untouched :
    (c : DumpCalls) (name junk : Bytes) (d : Table Bytes)
    → Untouched name d (clean_up c name (insert (tmp_of name) junk d))
clean_up-Untouched c name junk d = ground (
  arith,
  tmp_of-differs name,
  lookup-erase (tmp_of name) name (insert (tmp_of name) junk d),
  lookup-insert (tmp_of name) name junk d,
)

put_lem : (name bytes : Bytes) (d : Table Bytes) → lookup name (insert name bytes d) ≡ some bytes
put_lem name bytes d = rw (lookup-insert name name bytes d, bytes_eq_refl name) refl

dump_file_lem :
    (c : DumpCalls) (name bytes : Bytes) (d : Table Bytes)
    → Untouched name d (dump_file c name bytes d)
      ⊎ (lookup name (dump_file c name bytes d).0 ≡ some bytes)
unfolding dump_file
dump_file_lem c name bytes d = elim (Bool-cases c.open_ok) [
  | inl opened ↦ go opened c.fault refl
  | inr closed ↦ inl (rw closed (refl, refl))
]
  where
    go :
        c.open_ok ≡ true
        → (f : Option Bytes) → c.fault ≡ f
        → Untouched name d (dump_file c name bytes d)
          ⊎ (lookup name (dump_file c name bytes d).0 ≡ some bytes)
    go opened (some junk) e = inl (rw (opened, e) (clean_up-Untouched c name junk d))
    go opened none e = elim (Bool-cases (not (c.sync_ok && (c.close_ok && c.rename_ok)))) [
      | inl bad ↦ inl (rw (opened, e, bad) (clean_up-Untouched c name bytes d))
      | inr fine ↦ inr (
          rw (opened, e, fine)
            (put_lem name bytes (erase (tmp_of name) (insert (tmp_of name) bytes d))))
    ]

-- Some of the first entries and no more, with a whole file of them in the place of the snapshot.
abbrev pub HoldsPart : (Bytes → ℕ) → Bytes → List Record → Bytes → Table Bytes × Bool → Type 0
HoldsPart sum fp live name x =
    (qs : List Record) × (rest : List Record) × (file : Bytes) × (qs ++ rest ≡ live)
    × (lookup name x.0 ≡ some file)
    × (read_snapshot sum fp file ≡ entries qs)
    × (x.1 ≡ true → rest ≡ [])

-- What may be in the place of the snapshot behind a dump of these entries.
abbrev pub Ends :
    (Bytes → ℕ) → Bytes → List Record → Bytes → Table Bytes → Table Bytes × Bool → Type 0
Ends sum fp live name d x = Untouched name d x ⊎ HoldsPart sum fp live name x

-- A stream that was cut: whole entries, then nothing or a part of one.
abbrev CutAt : List Record → Bytes → Type 0
CutAt rs s =
    (qs : List Record) × (rest : List Record) × (tail : Bytes) × (qs ++ rest ≡ rs)
    × AllSized qs
    × (s ≡ encode_onto qs tail)
    × ((tail ≡ []) ⊎ ((0 < length tail) × (read_record tail ≡ none)))

encode-append : (r : Record) (s : Bytes) → encode r ++ s ≡ header r ++ (r.key ++ (r.value ++ s))
unfolding encode
encode-append r s =
    append_assoc (header r) (r.key ++ r.value) s
    ∙ ap (λ x. header r ++ x) (append_assoc r.key r.value s)

take_nil : (n : ℕ) → take {A = ℕ} n [] ≡ []
take_nil zero = refl
take_nil (suc n) = refl

cut_short :
    (r : Record) (s : Bytes) (rs : List Record) (n : ℕ)
    → n < length (encode r)
    → IsSized r
    → CutAt (r ∷ rs) (take n (header r ++ (r.key ++ (r.value ++ s))))
unfolding encode_onto
cut_short r s rs zero short h = ([], r ∷ rs, [], refl, tt, refl, inl refl)
cut_short r s rs (suc n) short h = (
  [],
  r ∷ rs,
  take (suc n) (encode r),
  refl,
  tt,
  ap (take (suc n)) (sym (encode-append r s)) ∙ take-append_le (encode r) s (suc n) (omega arith),
  inr (omega (arith, length-take {0} (suc n) (encode r)), read_record-take r (suc n) h short),
)

cut_lem : (rs : List Record) (n : ℕ) → AllSized rs → CutAt rs (take n (encode_onto rs []))
unfolding encode_onto
cut_lem [] n h = ([], [], [], refl, tt, take_nil n, inl refl)
cut_lem (r ∷ rs) n h = elim (Bool-cases (ltb n (length (encode r)))) [
  | inl short ↦ cut_short r (encode_onto rs []) rs n (ground (arith, short)) h.0
  | inr long ↦
      let (qs, rest, tail, e, sized, cut, t) = cut_lem rs (n - length (encode r)) h.1 in
      (
        r ∷ qs,
        rest,
        tail,
        ap (◌∷◌ r) e,
        (h.0, sized),
        ap (take n) (sym (encode-append r (encode_onto rs [])))
            ∙ take-append_ge (encode r) (encode_onto rs []) n (ground (arith, long))
            ∙ ap (λ x. encode r ++ x) cut
            ∙ encode-append r (encode_onto qs tail),
        t,
      )
]

part_lem :
    (part name : Bytes) (d : Table Bytes)
    → lookup name (insert (tmp_of name) part d) ≡ lookup name d
part_lem part name d = rw (lookup-insert (tmp_of name) name part d, tmp_of-differs name) refl

module _ (sum : Bytes → ℕ) (fits : (s : Bytes) → sum s < u64_mod) (fp : Bytes)
    (l : length fp ≡ 16) where
  dump_file-Ends :
      (c : DumpCalls) (now : ℕ) (rs : List Record) (name : Bytes) (d : Table Bytes)
      → AllSized rs
      → Ends sum fp rs name d (dump_file c name (snapshot_bytes sum now fp rs) d)
  dump_file-Ends c now rs name d h = elim (dump_file_lem c name (snapshot_bytes sum now fp rs) d) [
    | inl u ↦ inl u
    | inr put ↦ inr (
      rs,
      [],
      snapshot_bytes sum now fp rs,
      append-nil rs,
      put,
      read_snapshot-snapshot_bytes sum fits now fp rs l h,
      λ _. refl,
    )
  ]

  child_finish-none :
      (c : DumpCalls) (junk : Bytes) (now : ℕ) (name : Bytes) (d : Table Bytes)
      → Untouched name d (child_finish sum c junk fp now name d none)
  unfolding child_finish
  child_finish-none c junk now name d = elim (Bool-cases c.open_ok) [
    | inl opened ↦ rw opened (clean_up-Untouched c name junk d)
    | inr closed ↦ rw closed (refl, refl)
  ]

  -- What the child reads from a stream that was cut.
  abbrev Reads : List Record → Bytes → Type 0
  Reads rs s =
      (parse_entries (length s) s ≡ none)
      ⊎ ((qs : List Record) × (rest : List Record) × (qs ++ rest ≡ rs)
          × AllSized qs
          × (parse_entries (length s) s ≡ some qs))

  child-Reads : (rs : List Record) (s : Bytes) → CutAt rs s → Reads rs s
  child-Reads rs s (qs, rest, tail, e, h, cut, inl none_left) =
      let body : s ≡ encode_onto qs [] = cut ∙ ap (encode_onto qs) none_left in
      inr (
        qs,
        rest,
        e,
        h,
        rw body (
            parse_entries-encode_onto (length (encode_onto qs [])) qs
              (omega (arith, length-encode_onto qs [])) h),
      )
  child-Reads rs s (qs, rest, tail, e, h, cut, inr torn) =
      inl (rw cut (parse_entries-torn (length (encode_onto qs tail)) qs tail h torn.0 torn.1))

  child_write-parsed :
      (c : DumpCalls) (junk : Bytes) (now : ℕ) (s name : Bytes) (d : Table Bytes)
      (p : Option (List Record))
      → parse_entries (length s) s ≡ p
      → child_write sum c junk fp now s name d ≡ child_finish sum c junk fp now name d p
  unfolding child_write
  child_write-parsed c junk now s name d p e = ap (child_finish sum c junk fp now name d) e

  -- The child on a stream that was cut, behind which the parent fails.
  child_cut :
      (c : DumpCalls) (junk : Bytes) (now : ℕ) (rs : List Record) (s name : Bytes) (d : Table Bytes)
      → Reads rs s
      → Ends sum fp rs name d ((child_write sum c junk fp now s name d).0, false)
  child_cut c junk now rs s name d (inl failed) =
      let u = child_finish-none c junk now name d in
      inl (rw (child_write-parsed c junk now s name d none failed) (u.0, refl))
  child_cut c junk now rs s name d (inr (qs, rest, e, h, parsed)) =
      let same = child_write-parsed c junk now s name d (some qs) parsed in
      elim (dump_file_lem c name (snapshot_bytes sum now fp qs) d) [
        | inl u ↦ inl (rw same (unfold child_finish in (u.0, refl)))
        | inr put ↦ inr (
          qs,
          rest,
          snapshot_bytes sum now fp qs,
          e,
          rw same (unfold child_finish in put),
          read_snapshot-snapshot_bytes sum fits now fp qs l h,
          λ x. absurd (ground (arith, x)),
        )
      ]

  child_whole :
      (c : DumpCalls) (junk : Bytes) (now : ℕ) (rs : List Record) (name : Bytes) (d : Table Bytes)
      → AllSized rs
      → Ends sum fp rs name d (child_write sum c junk fp now (encode_onto rs []) name d)
  child_whole c junk now rs name d h =
      let parsed =
        parse_entries-encode_onto (length (encode_onto rs [])) rs
          (omega (arith, length-encode_onto rs [])) h in
      rw (child_write-parsed c junk now (encode_onto rs []) name d (some rs) parsed)
        (unfold child_finish in dump_file-Ends c now rs name d h)

  -- Whichever call fails, the pipe is cut anywhere or the child is killed: a dump leaves the old
  -- snapshot and fails, or puts a file in its place that reads back as the first entries of the live
  -- ones; where it succeeds, as all of them. The keys and values have less than 2^32 bytes.
  pub fork_dump-Ends :
      (f : ForkCalls) (c : DumpCalls) (junk : Bytes) (now : ℕ) (e : Engine.Engine) (clock : ℕ)
      (name : Bytes) (d : Table Bytes)
      → AllSized (entries_of (for_each e clock))
      → Ends sum fp
          (entries_of (for_each e clock))
          name
          d
          (fork_dump sum f c junk fp now e clock name d)
  unfolding fork_dump snapshot_write run_child serialize_engine
  fork_dump-Ends f c junk now e clock name d h =
      let live = entries_of (for_each e clock) in
      elim (Bool-cases (not (f.pipe_ok && f.start_ok))) [
        | inl alone ↦ rw alone (dump_file-Ends c now live name d h)
        | inr forked ↦ go forked f.cut refl f.killed refl
      ]
    where
      go :
          not (f.pipe_ok && f.start_ok) ≡ false
          → (cut : Option ℕ) → f.cut ≡ cut
          → (k : Option Bytes) → f.killed ≡ k
          → Ends sum fp
              (entries_of (for_each e clock))
              name
              d
              (fork_dump sum f c junk fp now e clock name d)
      go forked none a (some part) b = inl (rw (forked, a, b) (part_lem part name d, refl))
      go forked (some n) a (some part) b = inl (rw (forked, a, b) (part_lem part name d, refl))
      go forked none a none b =
          rw (forked, a, b, encode_all_lem)
            (child_whole c junk now (entries_of (for_each e clock)) name d h)
      go forked (some n) a none b =
          rw (forked, a, b, encode_all_lem)
            (child_cut c junk now (entries_of (for_each e clock))
              (take n (encode_onto (entries_of (for_each e clock)) [])) name d
              (child-Reads (entries_of (for_each e clock))
                (take n (encode_onto (entries_of (for_each e clock)) []))
                (cut_lem (entries_of (for_each e clock)) n h)))
