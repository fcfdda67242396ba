-- ===== src/Rbac/AuthLog/Ring.antt =====
-- The ring buffer keeps the newest entries, oldest first.
use tellstone.Prelude.{
  ℕ, zero, suc, ◌+◌, ◌-◌, ◌%◌, ◌≤◌, ◌<◌, ◌≡◌, ◌≢◌, refl, ap, sym, ◌∙◌, List, [], ◌∷◌, ◌++◌, arith,
  length, get_or, set, drop, ltb, if◌then◌else◌, length-set, length-replicate, length-append,
  length-drop, drop-append-le, drop-drop, get_or-set_self, get_or-set_ne, mod_ne, Bool-cases, ◌⊎◌,
  inl, inr,
}
use mathlib.Core.List.{append_assoc, append-nil}
use mathlib.Core.Path.{ap₂}
use native.Mathlib.Nat.{mod-mod, mod-add-mod}
use tellstone.Rbac.AuthLog.{
  Entry, AuthLog, default_cap, blank, new_log, allocated, append, seed, window, auth_log,
}

-- The newest `default_cap` entries of a list.
abbrev pub newest : List Entry → List Entry
newest entries = drop (length entries - default_cap) entries

-- The buffer has its capacity once it is there, and the ring is full before anything is lost.
pub record IsRing (l : AuthLog) : Type 0 where
  pub rows : (length l.buffer ≡ default_cap) ⊎ ((l.buffer ≡ []) × (l.head ≡ 0) × (l.len ≡ 0))
  pub head_in : l.head < default_cap
  pub len_in : l.len ≤ default_cap

-- The place of the oldest entry.
abbrev oldest : AuthLog → ℕ
oldest l = if ltb l.head l.len then l.head + default_cap - l.len else l.head - l.len

length-window : (b : List Entry) (s n : ℕ) → length (window b s n) ≡ n
unfolding window
length-window b s zero = refl
length-window b s (suc n) = ap suc (length-window b (s + 1) n)

window-snoc :
    (b : List Entry) (s n : ℕ)
    → window b s (suc n) ≡ window b s n ++ get_or b ((s + n) % length b) blank ∷ []
unfolding window
window-snoc b s zero = ap (λ i. get_or b (i % length b) blank ∷ []) (omega arith)
window-snoc b s (suc n) = ap (◌∷◌ (get_or b (s % length b) blank)) (
    window-snoc b (s + 1) n
    ∙ ap (λ i. window b (s + 1) n ++ get_or b (i % length b) blank ∷ []) (omega arith))

-- A write outside the window does not show in it.
window-set :
    (b : List Entry) (s n h : ℕ) (e : Entry)
    → ((i : ℕ) → i < n → h ≢ (s + i) % length b)
    → window (set b h e) s n ≡ window b s n
unfolding window
window-set b s zero h e out = refl
window-set b s (suc n) h e out = rw length-set (
    ap₂ ◌∷◌
      (get_or-set_ne {0} b h (s % length b) e blank
        (λ p. out 0 (omega arith) (p ∙ ap (λ x. x % length b) (omega arith))))
      (window-set b (s + 1) n h e
        (λ i lt p. out (suc i) (omega arith) (p ∙ ap (λ x. x % length b) (omega arith)))))

-- A start and its remainder are one place.
window-turn : (b : List Entry) (s n : ℕ) → window b (s % length b) n ≡ window b s n
unfolding window
window-turn b s zero = refl
window-turn b s (suc n) = ap₂ ◌∷◌ (ap (λ i. get_or b i blank) (mod-mod s (length b))) (
    sym (window-turn b (s % length b + 1) n)
    ∙ ap (λ i. window b i n) (mod-add-mod s (length b) 1)
    ∙ window-turn b (s + 1) n)

-- The entry that a write puts at the end of a window.
window-write :
    (b : List Entry) (head s n : ℕ) (e : Entry)
    → n < length b
    → head < length b
    → (s + n) % length b ≡ head
    → window (set b head e) s (suc n) ≡ window b s n ++ e ∷ []
window-write b head s n e room inside at =
    window-snoc (set b head e) s n
    ∙ ap₂ (λ w x. w ++ x ∷ [])
        (window-set b s n head e (λ i lt p.
          mod_ne (s + i) (n - i) (length b) (omega arith) (omega arith)
            (ap (λ x. x % length b) (omega arith) ∙ at ∙ p)))
        (ap₂ (λ m x. get_or (set b head e) (x % m) blank) (length-set {0} b head e) refl
          ∙ ap (λ i. get_or (set b head e) i blank) at
          ∙ get_or-set_self {0} b head e blank inside)

drop-window : (b : List Entry) (s n : ℕ) → drop 1 (window b s (suc n)) ≡ window b (s + 1) n
unfolding window
drop-window b s n = refl

allocated_rows : (l : AuthLog) → IsRing l → length (allocated l) ≡ default_cap
unfolding allocated
allocated_rows l r = ground (arith, r.rows, length-replicate {0} default_cap blank)

pub append-IsRing : (l : AuthLog) (e : Entry) → IsRing l → IsRing (append l e)
unfolding append
append-IsRing l e r =
    let rows = allocated_rows l r in
    record {
      rows = inl (length-set {0} (allocated l) l.head e ∙ rows);
      head_in = omega arith;
      len_in = ground arith;
    }

window-zero : (b : List Entry) (s : ℕ) → window b s 0 ≡ []
unfolding window
window-zero b s = refl

-- What AuthLog returns, on the buffer that the next entry is written to.
auth_log-window : (l : AuthLog) → IsRing l → auth_log l ≡ window (allocated l) (oldest l) l.len
unfolding auth_log allocated
auth_log-window l r = elim r.rows [
  | inl full ↦ ground (arith, window-zero (allocated l) (oldest l))
  | inr (empty, at, none_yet) ↦ ground (arith, window-zero (allocated l) (oldest l))
]

-- The buffer after an entry.
append_lem :
    (l : AuthLog) (e : Entry)
    → IsRing l
    → (allocated (append l e) ≡ set (allocated l) l.head e)
      × ((append l e).head ≡ (l.head + 1) % default_cap)
      × ((append l e).len ≡ (if ltb l.len default_cap then l.len + 1 else l.len))
append_lem l e r =
    let rows = allocated_rows l r in
    let long = length-set {0} (allocated l) l.head e in
    (
      unfold append allocated in ground (arith, rows, long),
      unfold append in ground (arith, rows),
      unfold append in ground (arith, rows),
    )

module _ (l : AuthLog) (e : Entry) (r : IsRing l) where
  log_room : l.len < default_cap → auth_log (append l e) ≡ auth_log l ++ e ∷ []
  log_room room =
      let (buffer, head, len) = append_lem l e r in
      let rows = allocated_rows l r in
      let grown : (append l e).len ≡ suc l.len = ground arith in
      let at : (oldest l + l.len) % length (allocated l) ≡ l.head =
        ap (λ m. (oldest l + l.len) % m) rows ∙ (ground arith) in
      let same : oldest (append l e) ≡ oldest l = ground arith in
      auth_log-window (append l e) (append-IsRing l e r)
      ∙ ap (λ b. window b (oldest (append l e)) (append l e).len) buffer
      ∙ ap₂ (λ s n. window (set (allocated l) l.head e) s n) same grown
      ∙ window-write (allocated l) l.head (oldest l) l.len e (omega arith) (omega arith) at
      ∙ ap (λ w. w ++ e ∷ []) (sym (auth_log-window l r))

  log_full : l.len ≡ default_cap → auth_log (append l e) ≡ drop 1 (auth_log l) ++ e ∷ []
  log_full full =
      let (buffer, head, len) = append_lem l e r in
      let rows = allocated_rows l r in
      let same : (append l e).len ≡ suc 99 = ground arith in
      let start : oldest (append l e) ≡ (l.head + 1) % length (allocated l) = ground arith in
      let at : (l.head + 1 + 99) % length (allocated l) ≡ l.head =
        ap (λ m. (l.head + 1 + 99) % m) rows ∙ omega arith in
      let written = set (allocated l) l.head e in
      auth_log-window (append l e) (append-IsRing l e r)
      ∙ ap (λ b. window b (oldest (append l e)) (append l e).len) buffer
      ∙ ap₂ (λ s n. window written s n)
          (start ∙ ap (λ m. (l.head + 1) % m) (sym (length-set {0} (allocated l) l.head e))) same
      ∙ window-turn written (l.head + 1) (suc 99)
      ∙ window-write (allocated l) l.head (l.head + 1) 99 e (omega arith) (omega arith) at
      ∙ ap (λ w. w ++ e ∷ [])
          (sym (drop-window (allocated l) l.head 99)
            ∙ ap₂ (λ s n. drop 1 (window (allocated l) s n)) (ground arith) (sym full)
            ∙ ap (drop 1) (sym (auth_log-window l r)))

  pub auth_log-append : auth_log (append l e) ≡ newest (auth_log l ++ e ∷ [])
  auth_log-append =
      let sized : length (auth_log l) ≡ l.len =
        ap length (auth_log-window l r) ∙ length-window (allocated l) (oldest l) l.len in
      let longer = length-append {0} (auth_log l) (e ∷ []) in
      elim (Bool-cases (ltb l.len default_cap)) [
        | inl room ↦
            let k : 0 ≡ length (auth_log l ++ e ∷ []) - default_cap = ground arith in
            log_room (ground arith) ∙ ap (λ k. drop k (auth_log l ++ e ∷ [])) k
        | inr none_left ↦
            let k : 1 ≡ length (auth_log l ++ e ∷ []) - default_cap = ground arith in
            log_full (ground arith)
            ∙ sym (drop-append-le {0} 1 (auth_log l) (e ∷ []) (ground arith))
            ∙ ap (λ k. drop k (auth_log l ++ e ∷ [])) k
      ]

newest-newest : (xs ys : List Entry) → newest (newest xs ++ ys) ≡ newest (xs ++ ys)
newest-newest xs ys =
    let k = length xs - default_cap in
    let cut = length-drop {0} k xs in
    let left = length-append {0} (drop k xs) ys in
    let whole = length-append {0} xs ys in
    let j : k + (length (drop k xs ++ ys) - default_cap) ≡ length (xs ++ ys) - default_cap =
      ground (arith, cut, left, whole) in
    ap (λ l. drop (length (drop k xs ++ ys) - default_cap) l)
      (sym (drop-append-le {0} k xs ys (omega arith)))
    ∙ drop-drop {0} k (length (drop k xs ++ ys) - default_cap) (xs ++ ys)
    ∙ ap (λ i. drop i (xs ++ ys)) j

pub new_log-IsRing : IsRing new_log
new_log-IsRing = record {
  rows = inr (refl, refl, refl);
  head_in = omega arith;
  len_in = omega arith;
}

seed-newest :
    (l : AuthLog) (entries : List Entry)
    → IsRing l
    → auth_log (seed l entries) ≡ newest (auth_log l ++ entries)
unfolding seed
seed-newest l [] r =
    let sized : length (auth_log l) ≡ l.len =
      ap length (auth_log-window l r) ∙ length-window (allocated l) (oldest l) l.len in
    let k : 0 ≡ length (auth_log l) - default_cap = omega arith in
    ap (λ k. drop k (auth_log l)) k ∙ ap newest (sym (append-nil (auth_log l)))
seed-newest l (e ∷ entries) r =
    seed-newest (append l e) entries (append-IsRing l e r)
    ∙ ap (λ x. newest (x ++ entries)) (auth_log-append l e r)
    ∙ newest-newest (auth_log l ++ e ∷ []) entries
    ∙ ap newest (append_assoc (auth_log l) (e ∷ []) entries)

-- However many entries are recorded in a fresh log, ACL LOG returns the newest hundred of them, or
-- all if they are fewer, in the order in which they came.
pub auth_log-seed : (entries : List Entry) → auth_log (seed new_log entries) ≡ newest entries
auth_log-seed entries = seed-newest new_log entries new_log-IsRing ∙ (unfold auth_log in refl)
