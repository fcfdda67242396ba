-- ===== src/Crypto/Rewrap/Keeps.antt =====
-- No run of a rotation loses a data key: whatever system call fails and wherever it stops.
use tellstone.Prelude.{
  ℕ, suc, ◌+◌, ◌-◌, ◌≡◌, refl, ap, ◌∙◌, sym, Bool, true, false, Option, none, some, List, [], ◌∷◌,
  ◌++◌, Bytes, bytes_eq, bytes_eq_iff, codes, length, take, drop, arith, Bool-cases, Option-cases,
  inl, inr, ◌⊎◌, length-append, drop-append,
}
use tellstone.Prelude.Table.{lookup, insert, erase, lookup-insert, lookup-erase}
use tellstone.Crypto.Envelope.{
  Primitives, Envelope, load_raw, Directory, Calls, tmp_of, remove_tmp, abandon, settle,
  replace_file,
}
use tellstone.Crypto.Rewrap.{
  is_envelope, Prepared, atomic_write, Effects, bak_of, copy_read, back_up, write_all,
}

-- The data key that a file gives up to one of the two keys.
abbrev pub either : Option Bytes → Option Bytes → Option Bytes
either (some dek) other = some dek
either none other = other

abbrev pub key_in : Primitives → Envelope → Envelope → Bytes → Option Bytes
key_in p old new raw = either (load_raw p old raw) (load_raw p new raw)

abbrev pub key_of : Primitives → Envelope → Envelope → Option Bytes → Option Bytes
key_of p old new none = none
key_of p old new (some raw) = key_in p old new raw

abbrev pub key_at : Primitives → Envelope → Envelope → Directory → Bytes → Option Bytes
key_at p old new d name = key_of p old new (lookup name d)

drop_suffix : (n s : Bytes) → length s ≡ 4 → drop (length (n ++ s) - 4) (n ++ s) ≡ s
drop_suffix n s h =
    let l : length (n ++ s) - 4 ≡ length n = omega (arith, h, length-append {0} n s) in
    rw l (drop-append n s)

-- A name with another extension is no envelope's.
is_envelope-append :
    (n s : Bytes) → length s ≡ 4 → bytes_eq s (codes ".env") ≡ false → is_envelope (n ++ s) ≡ false
unfolding is_envelope bytes_eq
is_envelope-append n s h other =
    let tail = drop_suffix n s h in
    let not_audit : bytes_eq (n ++ s) (codes "audit.env") ≡ false =
      elim (Bool-cases (bytes_eq (n ++ s) (codes "audit.env"))) [
        | inr no_ ↦ no_
        | inl same ↦
            let e = (bytes_eq_iff (n ++ s) (codes "audit.env")).0 same in
            let t : s ≡ codes ".env" = sym tail ∙ ap (λ x. drop (length x - 4) x) e in
            absurd (ground (arith, ap (λ x. bytes_eq x (codes ".env")) t))
      ] in
    ground (arith, tail, h, not_audit)

-- A step on the directory that leaves every envelope in place.
abbrev pub Spares : Directory → Directory → Type 0
Spares d d' = (name : Bytes) → is_envelope name ≡ true → lookup name d' ≡ lookup name d

insert-Spares :
    (other raw : Bytes) (d : Directory) → is_envelope other ≡ false → Spares d (insert other raw d)
insert-Spares other raw d h name k =
    lookup-insert other name raw d ∙ ground (arith, bytes_eq_iff other name)

erase-Spares :
    (other : Bytes) (d : Directory) → is_envelope other ≡ false → Spares d (erase other d)
erase-Spares other d h name k = lookup-erase other name d ∙ ground (arith, bytes_eq_iff other name)

tmp-not : (name : Bytes) → is_envelope (tmp_of name) ≡ false
unfolding bytes_eq
tmp-not name = is_envelope-append name (codes ".tmp") refl refl

bak-not : (name : Bytes) → is_envelope (bak_of name) ≡ false
unfolding bytes_eq
bak-not name = is_envelope-append name (codes ".bak") refl refl

Spares-trans : (a b c : Directory) → Spares a b → Spares b c → Spares a c
Spares-trans a b c h k name e = k name e ∙ h name e

-- A temporary file that was written and removed.
pub erase-insert-Spares :
    (name raw : Bytes) (d : Directory) → Spares d (erase (tmp_of name) (insert (tmp_of name) raw d))
erase-insert-Spares name raw d =
    Spares-trans d (insert (tmp_of name) raw d) (erase (tmp_of name) (insert (tmp_of name) raw d))
      (insert-Spares (tmp_of name) raw d (tmp-not name))
      (erase-Spares (tmp_of name) (insert (tmp_of name) raw d) (tmp-not name))

-- What a replacement comes to for the envelopes: nothing, or the new bytes in their place.
abbrev pub Replaced : Directory → Bytes → Bytes → Directory → Type 0
Replaced d name bytes d' = Spares d d' ⊎ ((m : Directory) × Spares d m × (d' ≡ insert name bytes m))

removed :
    (reported : Bool) (c : Calls) (name : Bytes) (d m : Directory)
    → Spares d m
    → Spares d (remove_tmp reported c name m).0
removed reported c name d m h = elim (Bool-cases c.remove_ok) [
  | inl e ↦
      rw e
        (Spares-trans d m (erase (tmp_of name) m) h (erase-Spares (tmp_of name) m (tmp-not name)))
  | inr e ↦ rw e h
]

abandoned :
    (reported : Bool) (c : Calls) (name : Bytes) (d m : Directory)
    → Spares d m
    → Spares d (abandon reported c name m).0
abandoned reported c name d m h = elim (Bool-cases c.close_ok) [
  | inr e ↦ rw e h
  | inl e ↦ rw e (removed reported c name d m h)
]

settle-Replaced :
    (reported : Bool) (c : Calls) (name bytes : Bytes) (d m : Directory)
    → Spares d m
    → Replaced d name bytes (settle reported c name bytes m).0
unfolding settle
settle-Replaced reported c name bytes d m h = elim (Bool-cases c.sync_ok) [
  | inr e ↦ rw e (inl (abandoned reported c name d m h))
  | inl e ↦ elim (Bool-cases c.close_ok) [
    | inr k ↦ rw (e, k) (inl (removed reported c name d m h))
    | inl k ↦ elim (Bool-cases c.rename_ok) [
      | inr r ↦ rw (e, k, r) (inl (removed reported c name d m h))
      | inl r ↦
          rw (e, k, r)
            (inr (
              erase (tmp_of name) m,
              Spares-trans d m (erase (tmp_of name) m) h
                  (erase-Spares (tmp_of name) m (tmp-not name)),
              refl,
            ))
    ]
  ]
]

pub replace_file-Replaced :
    (reported : Bool) (c : Calls) (name bytes : Bytes) (d : Directory)
    → Replaced d name bytes (replace_file reported c name bytes d).0
unfolding replace_file
replace_file-Replaced reported c name bytes d = elim (Bool-cases c.open_ok) [
  | inr e ↦ rw e (inl (λ k h. refl))
  | inl e ↦ elim (Option-cases c.write_fault) [
    | inl w ↦
        rw (e, w)
          (settle-Replaced reported c name bytes d (insert (tmp_of name) bytes d)
            (insert-Spares (tmp_of name) bytes d (tmp-not name)))
    | inr (n, w) ↦
        rw (e, w)
          (inl (
            abandoned reported c name d (insert (tmp_of name) (take n bytes) d)
              (insert-Spares (tmp_of name) (take n bytes) d (tmp-not name))))
  ]
]

module _ (p : Primitives) (old new : Envelope) where
  -- Every envelope still gives up the key that it gave up before.
  abbrev pub Holds : Directory → Directory → Type 0
  Holds d d' =
      (name : Bytes) → is_envelope name ≡ true → key_at p old new d' name ≡ key_at p old new d name

  Spares-Holds : (d d' : Directory) → Spares d d' → Holds d d'
  Spares-Holds d d' h name k = ap (key_of p old new) (h name k)

  Holds-trans : (a b c : Directory) → Holds a b → Holds b c → Holds a c
  Holds-trans a b c h k name e = k name e ∙ h name e

  insert-Holds :
      (name bytes : Bytes) (d : Directory)
      → key_in p old new bytes ≡ key_at p old new d name
      → Holds d (insert name bytes d)
  insert-Holds name bytes d h j e = elim (Bool-cases (bytes_eq name j)) [
    | inl same ↦
        let n = (bytes_eq_iff name j).0 same in
        let found : lookup j (insert name bytes d) ≡ some bytes =
          lookup-insert name j bytes d ∙ (rw same refl) in
        ap (key_of p old new) found ∙ h ∙ ap (key_at p old new d) n
    | inr other ↦
        let found : lookup j (insert name bytes d) ≡ lookup j d =
          lookup-insert name j bytes d ∙ (rw other refl) in
        ap (key_of p old new) found
  ]

  replace_file-Holds :
      (reported : Bool) (c : Calls) (name bytes : Bytes) (d : Directory)
      → is_envelope name ≡ true
      → key_in p old new bytes ≡ key_at p old new d name
      → Holds d (replace_file reported c name bytes d).0
  replace_file-Holds reported c name bytes d e h =
      elim (replace_file-Replaced reported c name bytes d) [
        | inl spared ↦ Spares-Holds d (replace_file reported c name bytes d).0 spared
        | inr (m, spared, q) ↦ rw q (
            Holds-trans d m (insert name bytes m) (Spares-Holds d m spared)
              (insert-Holds name bytes m (h ∙ sym (Spares-Holds d m spared name e))))
      ]

  back_up-Holds :
      (retain : Bool) (fault : Option ℕ) (name : Bytes) (d : Directory)
      → Holds d (back_up retain fault name d).0
  unfolding back_up
  back_up-Holds false fault name d = λ j e. refl
  back_up-Holds true fault name d =
      Spares-Holds d (copy_read fault name d (lookup name d)).0 (go (lookup name d) fault)
    where
      go : (o : Option Bytes) (fault : Option ℕ) → Spares d (copy_read fault name d o).0
      go none fault = λ j e. refl
      go (some raw) none = insert-Spares (bak_of name) raw d (bak-not name)
      go (some raw) (some n) = insert-Spares (bak_of name) (take n raw) d (bak-not name)

  -- Each file that is to be written gives up the key that the envelope in its place does.
  abbrev pub AllMatch : Directory → List Prepared → Type 0
  AllMatch d [] = Unit
  AllMatch d (x ∷ xs) =
      ((is_envelope x.target ≡ true) × (key_in p old new x.buf ≡ key_at p old new d x.target))
      × AllMatch d xs

  AllMatch-Holds :
      (d d' : Directory) (xs : List Prepared) → Holds d d' → AllMatch d xs → AllMatch d' xs
  AllMatch-Holds d d' [] h m = tt
  AllMatch-Holds d d' (x ∷ xs) h m =
      ((m.0.0, m.0.1 ∙ sym (h x.target m.0.0)), AllMatch-Holds d d' xs h m.1)

  pub write_all-Holds :
      (retain : Bool) (fx : ℕ → Effects) (n : ℕ) (xs : List Prepared) (d : Directory)
      → AllMatch d xs
      → Holds d (write_all retain fx n xs d).0
  unfolding write_all atomic_write
  write_all-Holds retain fx n [] d m = λ j e. refl
  write_all-Holds retain fx n (x ∷ xs) d m =
      let d₁ = (back_up retain (fx 0).copy_fault x.target d).0 in
      let saved = back_up-Holds retain (fx 0).copy_fault x.target d in
      let m₁ = AllMatch-Holds d d₁ (x ∷ xs) saved m in
      let d₂ = (replace_file true (fx 0).calls x.target x.buf d₁).0 in
      let written = replace_file-Holds true (fx 0).calls x.target x.buf d₁ m₁.0.0 m₁.0.1 in
      let both = Holds-trans d d₁ d₂ saved written in
      let rest = Holds-trans d d₂ (write_all retain (λ i. fx (suc i)) (n + 1) xs d₂).0 both (
        write_all-Holds retain (λ i. fx (suc i)) (n + 1) xs d₂
          (AllMatch-Holds d₁ d₂ xs written m₁.1)) in
      elim (Bool-cases (back_up retain (fx 0).copy_fault x.target d).1) [
        | inr e ↦ rw e saved
        | inl e ↦ elim (Bool-cases (replace_file true (fx 0).calls x.target x.buf d₁).1) [
          | inr k ↦ rw (e, k) both
          | inl k ↦ rw (e, k) rest
        ]
      ]
