-- ===== src/Resp/Protocol/Numbers.antt =====
-- The numbers and lines of the codec: what strconv.AppendInt writes is read back by parseLine.
use tellstone.Prelude.{
  ℕ, zero, suc, ◌+◌, ◌-◌, ◌*◌, ◌/◌, ◌%◌, ◌<◌, ◌≤◌, ◌≡◌, refl, ap, ◌∙◌, some, [], ◌∷◌, ◌++◌, Bytes,
  length, take, ltb, arith, i64_sign, length-append, Bool-cases, inl, inr,
}
use tellstone.Command.Ttl.{decimal, atoi}
use tellstone.Resp.Protocol.{
  line, no_line, incomplete, split_cr, parse_line, crlf, digits, append_number, max_bulk_len,
}

abbrev AllDigits : Bytes → Type 0
AllDigits [] = Unit
AllDigits (c ∷ s) = (b'0' ≤ c) × (c ≤ b'9') × AllDigits s

AllDigits-snoc : (s : Bytes) (c : ℕ) → AllDigits s → b'0' ≤ c → c ≤ b'9' → AllDigits (s ++ c ∷ [])
AllDigits-snoc [] c h l u = (l, u, tt)
AllDigits-snoc (d ∷ s) c h l u = (h.0, h.1, AllDigits-snoc s c h.2 l u)

digits-AllDigits : (f n : ℕ) → AllDigits (digits f n)
unfolding digits
digits-AllDigits zero n = tt
digits-AllDigits (suc f) n = elim (Bool-cases (ltb n 10)) [
  | inl h ↦ rw h (ground arith, ground arith, tt)
  | inr h ↦ rw h (
      AllDigits-snoc (digits f (n / 10)) (b'0' + n % 10) (digits-AllDigits f (n / 10)) (omega arith)
        (omega arith))
]

decimal-snoc :
    (a v : ℕ) (s : Bytes) (c : ℕ)
    → AllDigits s
    → b'0' ≤ c
    → c ≤ b'9'
    → decimal a s ≡ some v
    → decimal a (s ++ c ∷ []) ≡ some (v * 10 + (c - b'0'))
unfolding decimal
decimal-snoc a v [] c h l u q = ground arith
decimal-snoc a v (d ∷ s) c h l u q =
    let more = decimal-snoc (a * 10 + (d - b'0')) v s c h.2 l u in ground (arith, more, h.0, h.1)

-- 10 ^ f
abbrev ceiling : ℕ → ℕ
ceiling zero = 1
ceiling (suc f) = 10 * ceiling f

decimal-digits : (f n : ℕ) → n < ceiling f → decimal 0 (digits f n) ≡ some n
unfolding decimal digits
decimal-digits zero n h = ap some (omega arith)
decimal-digits (suc f) n h = elim (Bool-cases (ltb n 10)) [
  | inl low ↦ rw low (ground arith)
  | inr high ↦
      let whole : n / 10 * 10 + (b'0' + n % 10 - b'0') ≡ n = omega arith in
      rw high (
        decimal-snoc 0 (n / 10) (digits f (n / 10)) (b'0' + n % 10) (digits-AllDigits f (n / 10))
          (omega arith) (omega arith) (decimal-digits f (n / 10) (omega arith))
        ∙ ap some whole)
]

digits-nonempty : (f n : ℕ) → 0 < length (digits (suc f) n)
unfolding digits
digits-nonempty f n = ground (arith, length-append {0} (digits f (n / 10)) ((b'0' + n % 10) ∷ []))

atoi-decimal :
    (s : Bytes) (n : ℕ)
    → 0 < length s
    → AllDigits s
    → decimal 0 s ≡ some n
    → n < i64_sign
    → atoi s ≡ some n
unfolding atoi
atoi-decimal [] n h d q low = absurd (omega arith)
atoi-decimal (c ∷ s) n h d q low = ground (arith, d.0)

pub atoi-append_number : (n : ℕ) → n ≤ max_bulk_len → atoi (append_number n) ≡ some n
unfolding append_number
atoi-append_number n h =
    atoi-decimal (digits 19 n) n (digits-nonempty 18 n) (digits-AllDigits 19 n)
      (decimal-digits 19 n (omega arith)) (omega arith)

split_cr-append : (s t : Bytes) → AllDigits s → split_cr (s ++ 13 ∷ t) ≡ (s, 13 ∷ t)
unfolding split_cr
split_cr-append [] t h = refl
split_cr-append (c ∷ s) t h = ground (arith, split_cr-append s t h.2, h.0)

-- parseLine reads a number and its CRLF in front of any bytes.
pub parse_line-append_number :
    (n : ℕ) (rest : Bytes)
    → n ≤ max_bulk_len
    → parse_line (append_number n ++ (crlf ++ rest)) ≡ line n rest
unfolding parse_line append_number
parse_line-append_number n rest h =
    let number : atoi (digits 19 n) ≡ some n = unfold append_number in atoi-append_number n h in
    rw (split_cr-append (digits 19 n) (10 ∷ rest) (digits-AllDigits 19 n), number) (ground arith)

split_cr_short :
    (s : Bytes) (k : ℕ)
    → AllDigits s
    → k < length s + 2
    → length (split_cr (take k (s ++ crlf))).1 ≤ 1
unfolding split_cr
split_cr_short s zero h b = omega arith
split_cr_short [] (suc zero) h b = omega arith
split_cr_short [] (suc (suc k)) h b = absurd (omega arith)
split_cr_short (c ∷ s) (suc k) h b = ground (arith, split_cr_short s k h.2, h.0)

-- A part of the line is no line yet.
pub parse_line-take :
    (n k : ℕ)
    → k < length (append_number n ++ crlf)
    → parse_line (take k (append_number n ++ crlf)) ≡ no_line incomplete
unfolding parse_line append_number
parse_line-take n k h = ground (
  arith,
  split_cr_short (digits 19 n) k (digits-AllDigits 19 n),
  length-append {0} (digits 19 n) crlf,
)
