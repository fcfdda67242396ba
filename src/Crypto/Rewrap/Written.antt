-- ===== src/Crypto/Rewrap/Written.antt =====
-- What the two functions that replace an envelope's file say of it: Store of
-- internal/crypto/envelope.go and atomicWrite of internal/crypto/rewrap.go.
use tellstone.Prelude.{
  ℕ, ◌≡◌, ◌⊎◌, inl, inr, refl, ap, ◌∙◌, sym, Bool, true, false, not, ◌&&◌, ◌||◌, Option, none, some,
  ◌++◌, Bytes, bytes_eq_refl, length, take, drop, if◌then◌else◌, arith, Bool-cases, Option-cases,
  length-append, drop-append, take-append,
}
use tellstone.Prelude.Table.{lookup, insert, erase, lookup-insert}
use tellstone.Crypto.Cipher.{Lawful, IsNonce, enabled, encrypt_in_place, decrypt-encrypt}
use tellstone.Crypto.Envelope.{
  Primitives, fingerprint, fingerprint_len, header, is_supported, Envelope, wrap, unwrap, load_raw,
  load, store, Directory, Calls, tmp_of, settle, replace_file,
}
use tellstone.Crypto.Rewrap.{is_envelope, atomic_write}
use tellstone.Crypto.Rewrap.Keeps.{erase-insert-Spares, replace_file-Replaced}

abbrev pub is_some : Option ℕ → Bool
is_some none = false
is_some (some n) = true

cleaned :
    (c : Calls) (name bytes raw : Bytes) (d : Directory)
    → atomic_write c name bytes d ≡ (erase (tmp_of name) (insert (tmp_of name) raw d), true)
    → ((atomic_write c name bytes d).1 ≡ true)
      × ((other : Bytes)
          → is_envelope other ≡ true
          → lookup other (atomic_write c name bytes d).0 ≡ lookup other d)
cleaned c name bytes raw d e = (
  ap (λ x. x.1) e,
  λ other h. ap (λ x. lookup other x.0) e ∙ erase-insert-Spares name raw d other h,
)

-- Where the write, the sync or the rename fails, but the file opens and closes and the temporary
-- file is removed, atomicWrite reports success although every envelope is as it was.
pub atomic_write_lost :
    (c : Calls) (name bytes : Bytes) (d : Directory)
    → c.open_ok && (c.close_ok && c.remove_ok) ≡ true
    → is_some c.write_fault || (not c.sync_ok || not c.rename_ok) ≡ true
    → ((atomic_write c name bytes d).1 ≡ true)
      × ((other : Bytes)
          → is_envelope other ≡ true
          → lookup other (atomic_write c name bytes d).0 ≡ lookup other d)
atomic_write_lost c name bytes d fine broken = elim (Option-cases c.write_fault) [
  | inr (n, w) ↦
      cleaned c name bytes (take n bytes) d
        (unfold atomic_write replace_file in ground (arith, fine, w))
  | inl w ↦
      cleaned c name bytes bytes d
        (unfold atomic_write replace_file settle in ground (arith, fine, w, broken))
]

replace_file-true :
    (c : Calls) (name bytes : Bytes) (d : Directory)
    → (replace_file false c name bytes d).1 ≡ true
    → lookup name (replace_file false c name bytes d).0 ≡ some bytes
unfolding replace_file settle
replace_file-true c name bytes d h = ground (
  arith,
  h,
  lookup-insert name name bytes (erase (tmp_of name) (insert (tmp_of name) bytes d)),
  bytes_eq_refl name,
)

module _ (p : Primitives) (e : Envelope) (on : enabled e.engine ≡ true) (lawful : Lawful e.engine)
    (sized : length (fingerprint p e.kek) ≡ fingerprint_len) where
  load_raw-header :
      (other wrapped : Bytes) (entropy : Option Bytes)
      → IsNonce entropy
      → wrap e entropy ≡ some wrapped
      → load_raw p (record e { dek = other }) (header p e.kek ++ wrapped) ≡ some e.dek
  load_raw-header other wrapped entropy nonce q =
      let f = fingerprint p e.kek in
      let ok : is_supported (header p e.kek ++ wrapped) ≡ true =
        ground (arith, sized, length-append {0} f wrapped) in
      let mark : take fingerprint_len (f ++ wrapped) ≡ f =
        ap (λ n. take n (f ++ wrapped)) (sym sized) ∙ take-append f wrapped in
      let tail : drop fingerprint_len (f ++ wrapped) ≡ wrapped =
        ap (λ n. drop n (f ++ wrapped)) (sym sized) ∙ drop-append f wrapped in
      let sealed : encrypt_in_place e.engine entropy e.dek ≡ some wrapped =
        unfold wrap in ground (arith, q, on) in
      let opened = decrypt-encrypt e.engine entropy e.dek lawful nonce sealed in
      unfold load_raw unwrap in ground (arith, ok, mark, tail, opened, on, bytes_eq_refl f)

  -- What Load makes of a file.
  loaded : Envelope → Option Bytes → Option Envelope
  loaded later none = none
  loaded later (some raw) = elim (load_raw p later raw) [
    | none ↦ none
    | some dek ↦ some (record later { dek = dek })
  ]

  load_lem :
      (other name : Bytes) (d : Directory)
      → load p (record e { dek = other }) name d ≡ loaded (record e { dek = other }) (lookup name d)
  unfolding loaded
  load_lem other name d = unfold load in go (lookup name d)
    where
      go :
          (o : Option Bytes)
          → (if not (enabled e.engine) then some (record e { dek = other }) else elim o [
            | none ↦ none
            | some raw ↦ elim (load_raw p (record e { dek = other }) raw) [
              | none ↦ none
              | some dek ↦ some (record e { dek = dek })
            ]
          ])
            ≡ loaded (record e { dek = other }) o
      go none = rw on refl
      go (some raw) = rw on refl

  -- Store on an envelope's name, with a lawful cipher and a nonce of twelve bytes, whatever system
  -- calls fail: after it Load finds the stored data key, or what it found before; and where Store
  -- succeeds, it finds the stored key.
  pub load-store :
      (mkdir_ok : Bool) (c : Calls) (entropy : Option Bytes) (name other : Bytes) (d : Directory)
      → IsNonce entropy
      → is_envelope name ≡ true
      → let later = record e { dek = other } in
        let out = store p e mkdir_ok c entropy name d in
        ((load p later name out.0 ≡ some e) ⊎ (load p later name out.0 ≡ load p later name d))
        × (out.1 ≡ true → load p later name out.0 ≡ some e)
  load-store mkdir_ok c entropy name other d nonce env = elim (Bool-cases mkdir_ok) [
    | inr no_dir ↦
        let same : store p e mkdir_ok c entropy name d ≡ (d, false) =
          unfold store in ground (arith, on, no_dir) in
        rw same (inr refl, λ h. absurd (ground arith))
    | inl dir ↦ elim (Option-cases (wrap e entropy)) [
      | inl no_seal ↦
          let same : store p e mkdir_ok c entropy name d ≡ (d, false) =
            unfold store in ground (arith, on, dir, no_seal) in
          rw same (inr refl, λ h. absurd (ground arith))
      | inr (wrapped, sealed) ↦
          let raw = header p e.kek ++ wrapped in
          let went : store p e mkdir_ok c entropy name d ≡ replace_file false c name raw d =
            unfold store in ground (arith, on, dir, sealed) in
          let back : loaded (record e { dek = other }) (some raw) ≡ some e =
            unfold loaded in ground (arith, load_raw-header other wrapped entropy nonce sealed) in
          let at = λ (d' : Directory). load_lem other name d' in
          let found = λ (d' : Directory) (h : lookup name d' ≡ some raw).
            at d' ∙ ap (loaded (record e { dek = other })) h ∙ back in
          rw went (
            elim (replace_file-Replaced false c name raw d) [
              | inl spared ↦ inr (
                  at (replace_file false c name raw d).0
                  ∙ ap (loaded (record e { dek = other })) (spared name env)
                  ∙ sym (at d))
              | inr (m, kept, q) ↦ inl (
                  found (replace_file false c name raw d).0 (
                    ap (lookup name) q
                    ∙ lookup-insert name name raw m
                    ∙ (rw (bytes_eq_refl name) refl)))
            ],
            λ h. found (replace_file false c name raw d).0 (replace_file-true c name raw d h),
          )
    ]
  ]
