-- ===== src/Crypto/Rewrap/Safe.antt =====
-- A rotation from its start: the keys of all envelopes survive it.
use tellstone.Prelude.{
  ℕ, suc, ◌≡◌, refl, ap, ◌∙◌, sym, subst, Bool, true, false, Option, none, some, List, [], ◌∷◌,
  ◌++◌, Bytes, bytes_eq, bytes_eq_refl, length, take, drop, arith, Bool-cases, Option-cases, inl,
  inr, ◌⊎◌, length-append, drop-append, take-append, length-take,
}
use tellstone.Prelude.Table.{lookup}
use tellstone.Crypto.Cipher.{
  active, Aead, AeadLaws, Lawful, IsNonce, enabled, new_engine, encrypt_in_place, decrypt-encrypt,
}
use tellstone.Crypto.Envelope.{
  Primitives, fingerprint, fingerprint_len, header_len, header, is_supported, Envelope,
  new_envelope, wrap, unwrap, load_raw, Directory,
}
use tellstone.Crypto.Rewrap.{
  is_envelope, Entry, entry, read_entries, is_new, is_other, count, Prepared, Preparation,
  unprepared, prepared, prepend, prepare_one, prepare, Effects, write_all, rewrap_entries,
  check_keys, check_entries, rewrap_envelopes, find_envelope_files, Result, refused, finished,
  no_files, unreadable,
}
use tellstone.Crypto.Rewrap.Keeps.{either, key_of, key_at, Holds, AllMatch, write_all-Holds}

-- What the primitives promise: an AEAD for each key, and a digest of 32 bytes.
pub record PrimitiveLaws (p : Primitives) : Type 0 where
  pub lawful : (key : Bytes) (a : Aead) → p.construct key ≡ some a → AeadLaws a
  pub length-digest : (key : Bytes) → length (p.digest key) ≡ 32

-- Two envelopes of keys with different fingerprints.
pub record IsPair (p : Primitives) (old new : Envelope) : Type 0 where
  pub old_on : enabled old.engine ≡ true
  pub new_on : enabled new.engine ≡ true
  pub new_lawful : Lawful new.engine
  pub differ : bytes_eq (fingerprint p new.kek) (fingerprint p old.kek) ≡ false
  pub sized : length (fingerprint p new.kek) ≡ fingerprint_len

abbrev AllEnvelopes : List Bytes → Type 0
AllEnvelopes [] = Unit
AllEnvelopes (name ∷ names) = (is_envelope name ≡ true) × AllEnvelopes names

find_envelope_files-AllEnvelopes : (d : Directory) → AllEnvelopes (find_envelope_files d)
unfolding find_envelope_files
find_envelope_files-AllEnvelopes [] = tt
find_envelope_files-AllEnvelopes ((name, raw) ∷ d) = elim (Bool-cases (is_envelope name)) [
  | inl e ↦ rw e (e, find_envelope_files-AllEnvelopes d)
  | inr e ↦ rw e (find_envelope_files-AllEnvelopes d)
]

module _ (p : Primitives) (old new : Envelope) (pair : IsPair p old new) where
  header_lem :
      (wrapped : Bytes)
      → (is_supported (header p new.kek ++ wrapped) ≡ true)
        × (take fingerprint_len (drop 1 (header p new.kek ++ wrapped)) ≡ fingerprint p new.kek)
        × (drop header_len (header p new.kek ++ wrapped) ≡ wrapped)
  header_lem wrapped =
      let f = fingerprint p new.kek in
      (
        ground (arith, pair.sized, length-append {0} f wrapped),
        ap (λ n. take n (f ++ wrapped)) (sym pair.sized) ∙ take-append f wrapped,
        ap (λ n. drop n (f ++ wrapped)) (sym pair.sized) ∙ drop-append f wrapped,
      )

  unwrap-wrap :
      (dek wrapped : Bytes) (entropy : Option Bytes)
      → IsNonce entropy
      → wrap (record new { dek = dek }) entropy ≡ some wrapped
      → unwrap new wrapped ≡ some dek
  unfolding wrap unwrap
  unwrap-wrap dek wrapped entropy nonce e =
      let on = pair.new_on in
      let sealed : encrypt_in_place new.engine entropy dek ≡ some wrapped = ground (arith, e, on) in
      let opened = decrypt-encrypt new.engine entropy dek pair.new_lawful nonce sealed in
      ground (arith, opened, on)

  -- A rewrapped file gives up its key to the new KEK.
  pub load-header :
      (dek wrapped : Bytes) (entropy : Option Bytes)
      → IsNonce entropy
      → wrap (record new { dek = dek }) entropy ≡ some wrapped
      → (load_raw p old (header p new.kek ++ wrapped) ≡ none)
        × (load_raw p new (header p new.kek ++ wrapped) ≡ some dek)
  unfolding load_raw
  load-header dek wrapped entropy nonce e =
      let (ok, mark, tail) = header_lem wrapped in
      let opened = unwrap-wrap dek wrapped entropy nonce e in
      (
        rw (ok, mark, pair.differ) refl,
        rw (ok, mark, tail, bytes_eq_refl (fingerprint p new.kek)) opened,
      )

  -- An entry is what was read of an envelope in the directory.
  abbrev pub IsRead : Directory → Entry → Type 0
  IsRead d e =
      (is_envelope e.name ≡ true)
      × (raw : Bytes) × (lookup e.name d ≡ some raw)
      × (is_supported raw ≡ true)
      × (e ≡ entry p old.kek new.kek e.name raw)

  abbrev pub AllRead : Directory → List Entry → Type 0
  AllRead d [] = Unit
  AllRead d (e ∷ es) = IsRead d e × AllRead d es

  -- The key that phase 1 unwraps is the one that the envelope gives up.
  old_key :
      (d : Directory) (e : Entry) (dek : Bytes)
      → IsRead d e
      → is_new e.status ≡ false
      → is_other e.status ≡ false
      → unwrap old e.wrapped ≡ some dek
      → key_at p old new d e.name ≡ some dek
  unfolding load_raw
  old_key d e dek (here, raw, found, ok, q) n o u =
      let mark : bytes_eq (take fingerprint_len (drop 1 raw)) (fingerprint p old.kek) ≡ true =
        ground (arith, ap (λ x. x.status) q) in
      let w : unwrap old (drop header_len raw) ≡ some dek =
        ap (λ (x : Entry). unwrap old x.wrapped) (sym q) ∙ u in
      let loaded : load_raw p old raw ≡ some dek = unfold load_raw in ground (arith, ok, mark, w) in
      ap (key_of p old new) found ∙ ap (λ o. either o (load_raw p new raw)) loaded

  -- What a preparation that succeeds was made of.
  prepare_one_lem :
      (entropy : Option Bytes) (e : Entry) (rest : Preparation) (xs : List Prepared)
      → prepare_one p old new entropy e rest ≡ prepared xs
      → (dek wrapped : Bytes) × (xs' : List Prepared) × (unwrap old e.wrapped ≡ some dek)
        × (wrap (record new { dek = dek }) entropy ≡ some wrapped)
        × (rest ≡ prepared xs')
        × (xs ≡ record { target = e.name; buf = header p new.kek ++ wrapped } ∷ xs')
  prepare_one_lem entropy e rest xs q = elim (Option-cases (unwrap old e.wrapped)) [
    | inl no_key ↦ absurd (ground (arith, q, no_key))
    | inr (dek, u) ↦ elim (Option-cases (wrap (record new { dek = dek }) entropy)) [
      | inl no_seal ↦ absurd (ground (arith, q, u, no_seal))
      | inr (wrapped, w) ↦
          let last : prepend (record { target = e.name; buf = header p new.kek ++ wrapped }) rest
              ≡ prepared xs =
            ground (arith, q, u, w) in
          let (xs', r, x) =
            go rest (record { target = e.name; buf = header p new.kek ++ wrapped }) last in
          (dek, wrapped, xs', u, w, r, x)
    ]
  ]
    where
      go :
          (rest : Preparation) (x : Prepared)
          → prepend x rest ≡ prepared xs
          → (xs' : List Prepared) × (rest ≡ prepared xs') × (xs ≡ x ∷ xs')
      go (unprepared r) x q = absurd (ground arith)
      go (prepared xs') x q = (xs', refl, ground arith)

  prepare-AllMatch :
      (d : Directory) (entropies : ℕ → Option Bytes) (es : List Entry) (xs : List Prepared)
      → AllRead d es
      → count is_other es ≡ 0
      → ((i : ℕ) → IsNonce (entropies i))
      → prepare p old new entropies es ≡ prepared xs
      → AllMatch p old new d xs
  prepare-AllMatch d entropies [] xs r o nonces q =
      let e : [] ≡ xs = unfold prepare in ground arith in subst (AllMatch p old new d) e tt
  prepare-AllMatch d entropies (e ∷ es) xs r o nonces q = elim (Bool-cases (is_new e.status)) [
    | inl skip ↦
        let rest : prepare p old new (λ i. entropies (suc i)) es ≡ prepared xs =
          unfold prepare in ground (arith, q, skip) in
        prepare-AllMatch d (λ i. entropies (suc i)) es xs r.1 (ground (arith, o))
          (λ i. nonces (suc i)) rest
    | inr work ↦
        let one : prepare_one p old new (entropies 0) e
              (prepare p old new (λ i. entropies (suc i)) es)
            ≡ prepared xs =
          unfold prepare in ground (arith, q, work) in
        let (dek, wrapped, xs', u, w, rest, parts) =
          prepare_one_lem (entropies 0) e (prepare p old new (λ i. entropies (suc i)) es) xs one in
        let (shut, opens) = load-header dek wrapped (entropies 0) (nonces 0) w in
        let before = old_key d e dek r.0 work (ground (arith, o)) u in
        let more =
          prepare-AllMatch d (λ i. entropies (suc i)) es xs' r.1 (ground (arith, o))
            (λ i. nonces (suc i)) rest in
        subst (AllMatch p old new d) (sym parts) (
          (
            r.0.0,
            ap (λ o. either o (load_raw p new (header p new.kek ++ wrapped))) shut
                ∙ opens
                ∙ sym before,
          ),
          more,
        )
  ]

  rewrap_entries-Holds :
      (retain : Bool) (fx : ℕ → Effects) (entropies : ℕ → Option Bytes) (es : List Entry)
      (d : Directory)
      → AllRead d es
      → count is_other es ≡ 0
      → ((i : ℕ) → IsNonce (entropies i))
      → Holds p old new d (rewrap_entries p old new retain fx entropies es d).0
  unfolding rewrap_entries
  rewrap_entries-Holds retain fx entropies es d r o nonces =
      go (prepare p old new entropies es) (prepare-AllMatch d entropies es)
    where
      go :
          (x : Preparation)
          → ((xs : List Prepared)
              → AllRead d es
              → count is_other es ≡ 0
              → ((i : ℕ) → IsNonce (entropies i))
              → x ≡ prepared xs
              → AllMatch p old new d xs)
          → Holds p old new d
              (elim x as (λ _. Directory × Result) [
                | unprepared r ↦ (d, refused r)
                | prepared xs ↦
                    let (d', n, stopped) = write_all retain fx 0 xs d in
                    (
                      d',
                      elim stopped [
                        | some r ↦ refused r
                        | none ↦ finished n (count is_new es) (length es)
                      ],
                    )
              ]).0
      go (unprepared r) m = λ j e. refl
      go (prepared xs) m = write_all-Holds p old new retain fx 0 xs d (m xs r o nonces refl)

  -- The loop that reads keeps what it read.
  read_entries-AllRead :
      (d : Directory) (names : List Bytes) (es : List Entry)
      → AllEnvelopes names
      → read_entries p old.kek new.kek d names ≡ some es
      → AllRead d es
  read_entries-AllRead d [] es h q =
      let e : [] ≡ es = unfold read_entries in ground arith in subst (AllRead d) e tt
  read_entries-AllRead d (name ∷ names) es h q = elim (Option-cases (lookup name d)) [
    | inl gone ↦ absurd (unfold read_entries in ground (arith, q, gone))
    | inr (raw, found) ↦ elim (Option-cases (read_entries p old.kek new.kek d names)) [
      | inl stuck ↦ absurd (unfold read_entries in ground (arith, q, found, stuck))
      | inr (rest, went) ↦
          let ok : is_supported raw ≡ true =
            unfold read_entries in ground (arith, q, found, went) in
          let parts : entry p old.kek new.kek name raw ∷ rest ≡ es =
            unfold read_entries in ground (arith, q, found, went, ok) in
          subst (AllRead d) parts
            ((h.0, raw, found, ok, refl), read_entries-AllRead d names rest h.1 went)
    ]
  ]

new_envelope_lem :
    (p : Primitives) (laws : PrimitiveLaws p) (key : Bytes) (e : Envelope)
    → length key ≡ 32
    → new_envelope p key ≡ some e
    → (e.kek ≡ key) × (enabled e.engine ≡ true) × Lawful e.engine
new_envelope_lem p laws key e l q = elim (Option-cases (p.construct key)) [
  | inl none_made ↦ absurd (unfold new_envelope new_engine in ground (arith, q, none_made))
  | inr (a, made) ↦
      let parts : record { kek = key; dek = []; engine = active a (fingerprint p key) } ≡ e =
        unfold new_envelope new_engine in ground (arith, q, made) in
      subst (λ (x : Envelope). (x.kek ≡ key) × (enabled x.engine ≡ true) × Lawful x.engine) parts
        (refl, (unfold enabled in refl), laws.lawful key a made)
]

names-cases : (xs : List Bytes) → (xs ≡ []) ⊎ ((x : Bytes) × (rest : List Bytes) × (xs ≡ x ∷ rest))
names-cases [] = inl refl
names-cases (x ∷ xs) = inr (x, xs, refl)

check_keys-none :
    (old new : Bytes) → check_keys old new ≡ none → (length old ≡ 32) × (length new ≡ 32)
unfolding check_keys
check_keys-none old new h = (ground (arith, h), ground (arith, h))

check_entries-none : (es : List Entry) → check_entries es ≡ none → count is_other es ≡ 0
unfolding check_entries
check_entries-none es h = ground (arith, h)

module _ (p : Primitives) (laws : PrimitiveLaws p) (old_key new_key : Bytes)
    (old new : Envelope) where
  pair_lem :
      length old_key ≡ 32
      → length new_key ≡ 32
      → new_envelope p old_key ≡ some old
      → new_envelope p new_key ≡ some new
      → bytes_eq (fingerprint p new_key) (fingerprint p old_key) ≡ false
      → IsPair p old new
  pair_lem l₁ l₂ made₁ made₂ differ =
      let (k₁, on₁, w₁) = new_envelope_lem p laws old_key old l₁ made₁ in
      let (k₂, on₂, w₂) = new_envelope_lem p laws new_key new l₂ made₂ in
      record {
        old_on = on₁;
        new_on = on₂;
        new_lawful = w₂;
        differ = rw (k₁, k₂) differ;
        sized =
            unfold fingerprint in
            omega (arith, length-take {0} 16 (p.digest new.kek), laws.length-digest new.kek);
      }

  -- Whatever the outcome of a rotation is, whichever of its system calls fail and at which bytes,
  -- and whether or not backups are kept: every envelope that gave up a data key to the old or to the
  -- new KEK gives up the same one afterwards. The primitives keep their laws, and the two KEKs have
  -- different fingerprints.
  pub rewrap_envelopes-Holds :
      (retain : Bool) (fx : ℕ → Effects) (entropies : ℕ → Option Bytes) (d : Directory)
      → new_envelope p old_key ≡ some old
      → new_envelope p new_key ≡ some new
      → bytes_eq (fingerprint p new_key) (fingerprint p old_key) ≡ false
      → ((i : ℕ) → IsNonce (entropies i))
      → Holds p old new d (rewrap_envelopes p old_key new_key retain fx entropies d).0
  rewrap_envelopes-Holds retain fx entropies d made₁ made₂ differ nonces =
      elim (Option-cases (check_keys old_key new_key)) [
        | inr (r, bad) ↦ same (refused r) (unfold rewrap_envelopes in ground (arith, bad))
        | inl keys ↦ elim (names-cases (find_envelope_files d)) [
          | inl nothing ↦
              same (refused no_files) (unfold rewrap_envelopes in ground (arith, keys, nothing))
          | inr (name, names, some_) ↦
              elim (Option-cases (read_entries p old_key new_key d (name ∷ names))) [
                | inl unread ↦
                    same (refused unreadable)
                      (unfold rewrap_envelopes in ground (arith, keys, some_, unread))
                | inr (es, went) ↦ elim (Option-cases (check_entries es)) [
                  | inr (r, stop) ↦
                      same r (unfold rewrap_envelopes in ground (arith, keys, some_, went, stop))
                  | inl go_on ↦
                      let (l₁, l₂) = check_keys-none old_key new_key keys in
                      let pair = pair_lem l₁ l₂ made₁ made₂ differ in
                      let (k₁, on₁, w₁) = new_envelope_lem p laws old_key old l₁ made₁ in
                      let (k₂, on₂, w₂) = new_envelope_lem p laws new_key new l₂ made₂ in
                      let envelopes =
                        subst AllEnvelopes some_ (find_envelope_files-AllEnvelopes d) in
                      let read : read_entries p old.kek new.kek d (name ∷ names) ≡ some es =
                        ap (λ k. read_entries p k new.kek d (name ∷ names)) k₁
                        ∙ ap (λ k. read_entries p old_key k d (name ∷ names)) k₂
                        ∙ went in
                      at (rewrap_entries p old new retain fx entropies es d)
                        (unfold rewrap_envelopes in
                          ground (arith, keys, some_, went, go_on, made₁, made₂))
                        (rewrap_entries-Holds p old new pair retain fx entropies es d
                          (read_entries-AllRead p old new pair d (name ∷ names) es envelopes read)
                          (check_entries-none es go_on) nonces)
                ]
              ]
        ]
      ]
    where
      at :
          (y : Directory × Result)
          → rewrap_envelopes p old_key new_key retain fx entropies d ≡ y
          → Holds p old new d y.0
          → Holds p old new d (rewrap_envelopes p old_key new_key retain fx entropies d).0
      at y e h = subst (λ x. Holds p old new d x.0) (sym e) h

      same :
          (r : Result)
          → rewrap_envelopes p old_key new_key retain fx entropies d ≡ (d, r)
          → Holds p old new d (rewrap_envelopes p old_key new_key retain fx entropies d).0
      same r e = subst (λ x. Holds p old new d x.0) (sym e) (λ j k. refl)
