-- ===== src/Resp/Protocol/Stream.antt =====
-- Commands as a stream: Parse reads what AppendArray and AppendBulk write, and waits for the rest of
-- a part of it.
use mathlib.Core.List.{append_assoc}
use tellstone.Prelude.{
  ℕ, zero, suc, ◌+◌, ◌-◌, ◌<◌, ◌≤◌, ◌≡◌, refl, ap, ◌∙◌, sym, inl, inr, ◌⊎◌, Bool-cases, List, [],
  ◌∷◌, ◌++◌, Bytes, length, take, drop, get_or, ltb, arith, length-append, length-take, take-append,
  take-append_ge, take-append_le,
}
use tellstone.Resp.Protocol.{
  bulk, no_bulk, incomplete, parsed, failed, line, no_line, bulk_body, parse_line, parse_bulk,
  parse_bulks, parse, crlf, append_number, append_bulk, append_bulks, append_array, max_bulk_len,
}
use tellstone.Resp.Protocol.Numbers.{parse_line-append_number, parse_line-take}

-- Every argument has a length that the parser takes.
abbrev pub AllFit : List Bytes → Type 0
AllFit [] = Unit
AllFit (b ∷ bs) = (length b ≤ max_bulk_len) × AllFit bs

-- The bytes of a command.
abbrev pub command : List Bytes → Bytes
command args = append_array (length args) ++ append_bulks args

get_or-append : (b s : Bytes) (i : ℕ) → get_or (b ++ s) (length b + i) 0 ≡ get_or s i 0
get_or-append [] s i = let e : 0 + i ≡ i = omega arith in ap (λ j. get_or s j 0) e
get_or-append (c ∷ b) s i =
    let e : suc (length b) + i ≡ suc (length b + i) = omega arith in
    ap (λ j. get_or (c ∷ (b ++ s)) j 0) e ∙ get_or-append b s i

drop-append_ge : (b s : Bytes) (i : ℕ) → drop (length b + i) (b ++ s) ≡ drop i s
drop-append_ge [] s i = let e : 0 + i ≡ i = omega arith in ap (λ j. drop j s) e
drop-append_ge (c ∷ b) s i =
    let e : suc (length b) + i ≡ suc (length b + i) = omega arith in
    ap (λ j. drop j (c ∷ (b ++ s))) e ∙ drop-append_ge b s i

bulk_body-append :
    (b rest : Bytes)
    → length b ≤ max_bulk_len
    → bulk_body (length b) (b ++ (crlf ++ rest)) ≡ bulk b rest
unfolding bulk_body
bulk_body-append b rest h =
    let cr : get_or (b ++ (crlf ++ rest)) (length b) 0 ≡ 13 =
      let e : length b + 0 ≡ length b = omega arith in
      ap (λ i. get_or (b ++ (crlf ++ rest)) i 0) (sym e) ∙ get_or-append b (crlf ++ rest) 0 in
    let lf = get_or-append b (crlf ++ rest) 1 in
    let gone = drop-append_ge b (crlf ++ rest) 2 in
    ground
      (arith, cr, lf, gone, length-append {0} b (crlf ++ rest), take-append {0} b (crlf ++ rest))

append_bulk_lem :
    (b rest : Bytes)
    → append_bulk b ++ rest ≡ b'$' ∷ append_number (length b) ++ (crlf ++ (b ++ (crlf ++ rest)))
unfolding append_bulk
append_bulk_lem b rest = ap (◌∷◌ b'$') (
    append_assoc (append_number (length b)) (crlf ++ (b ++ crlf)) rest
    ∙ ap (λ s. append_number (length b) ++ (crlf ++ s)) (append_assoc b crlf rest))

parse_bulk-append_bulk :
    (b rest : Bytes) → length b ≤ max_bulk_len → parse_bulk (append_bulk b ++ rest) ≡ bulk b rest
unfolding parse_bulk
parse_bulk-append_bulk b rest h =
    rw
      (
        append_bulk_lem b rest,
        parse_bulk,
        parse_line-append_number (length b) (b ++ (crlf ++ rest)) h,
      )
      (bulk_body-append b rest h)

parse_bulks-append_bulks :
    (bs : List Bytes) (rest : Bytes)
    → AllFit bs
    → parse_bulks (length bs) (append_bulks bs ++ rest) ≡ parsed bs rest
unfolding parse_bulks
parse_bulks-append_bulks [] rest h = refl
parse_bulks-append_bulks (b ∷ bs) rest h =
    rw
      (
        append_assoc (append_bulk b) (append_bulks bs) rest,
        parse_bulks,
        parse_bulk-append_bulk b (append_bulks bs ++ rest) h.0,
        parse_bulks-append_bulks bs rest h.1,
      )
      refl

command_lem :
    (args : List Bytes) (rest : Bytes)
    → command args ++ rest
      ≡ b'*' ∷ append_number (length args) ++ (crlf ++ (append_bulks args ++ rest))
unfolding append_array
command_lem args rest =
    append_assoc (append_array (length args)) (append_bulks args) rest
    ∙ ap (◌∷◌ b'*') (append_assoc (append_number (length args)) crlf (append_bulks args ++ rest))

parse-command_lem :
    (args : List Bytes) (rest : Bytes)
    → length args ≤ max_bulk_len
    → AllFit args
    → parse (command args ++ rest) ≡ parsed args rest
unfolding parse
parse-command_lem args rest n h =
    rw
      (
        command_lem args rest,
        parse,
        parse_line-append_number (length args) (append_bulks args ++ rest) n,
      )
      (ground (arith, parse_bulks-append_bulks args rest h))

-- The lines and bodies of which the last bytes are missing.
line_take :
    (n : ℕ) (tail : Bytes) (k : ℕ)
    → n ≤ max_bulk_len
    → (parse_line (take k (append_number n ++ (crlf ++ tail))) ≡ no_line incomplete)
      ⊎ ((length (append_number n) + 2 ≤ k)
          × (parse_line (take k (append_number n ++ (crlf ++ tail)))
              ≡ line n (take (k - (length (append_number n) + 2)) tail)))
line_take n tail k h =
    let front = append_number n ++ crlf in
    let size : length front ≡ length (append_number n) + 2 =
      omega (arith, length-append {0} (append_number n) crlf) in
    let parts = append_assoc (append_number n) crlf tail in
    elim (Bool-cases (ltb k (length front))) [
      | inl short ↦ inl (
          rw (← parts, take-append_le front tail k (ground arith))
            (parse_line-take n k (ground arith)))
      | inr long ↦ inr (
        ground (arith, size),
        rw
            (
              ← parts,
              take-append_ge front tail k (ground arith),
              append_assoc (append_number n) crlf (take (k - length front) tail),
              parse_line-append_number n (take (k - length front) tail) h,
              size,
            )
            refl,
      )
    ]

bulk_body-take :
    (b : Bytes) (k : ℕ)
    → length b ≤ max_bulk_len
    → k < length b + 2
    → bulk_body (length b) (take k (b ++ crlf)) ≡ no_bulk incomplete
unfolding bulk_body
bulk_body-take b k h short = ground (arith, length-take {0} k (b ++ crlf))

parse_bulk-take :
    (b : Bytes) (k : ℕ)
    → length b ≤ max_bulk_len
    → k < length (append_bulk b)
    → parse_bulk (take k (append_bulk b)) ≡ no_bulk incomplete
unfolding parse_bulk append_bulk
parse_bulk-take b zero h short = refl
parse_bulk-take b (suc k) h short =
    let size = length-append {0} (append_number (length b)) (crlf ++ (b ++ crlf)) in
    let more = length-append {0} b crlf in
    elim (line_take (length b) (b ++ crlf) k h) [
      | inl q ↦ rw q (ground arith)
      | inr (far, q) ↦ rw q (
          ground (
            arith,
            bulk_body-take b (k - (length (append_number (length b)) + 2)) h
                (omega (arith, size, more)),
          ))
    ]

parse_bulks-take :
    (bs : List Bytes) (k : ℕ)
    → AllFit bs
    → k < length (append_bulks bs)
    → parse_bulks (length bs) (take k (append_bulks bs)) ≡ failed incomplete
unfolding parse_bulks
parse_bulks-take [] k h short = absurd (omega arith)
parse_bulks-take (b ∷ bs) k h short = elim (Bool-cases (ltb k (length (append_bulk b)))) [
  | inl early ↦
      rw
        (
          take-append_le (append_bulk b) (append_bulks bs) k (ground arith),
          parse_bulks,
          parse_bulk-take b k h.0 (ground arith),
        )
        refl
  | inr late ↦
      let left : k - length (append_bulk b) < length (append_bulks bs) =
        ground (arith, length-append {0} (append_bulk b) (append_bulks bs)) in
      rw
        (
          take-append_ge (append_bulk b) (append_bulks bs) k (ground arith),
          parse_bulks,
          parse_bulk-append_bulk b (take (k - length (append_bulk b)) (append_bulks bs)) h.0,
          parse_bulks-take bs (k - length (append_bulk b)) h.1 left,
        )
        refl
]

parse-take_lem :
    (args : List Bytes) (k : ℕ)
    → length args ≤ max_bulk_len
    → AllFit args
    → k < length (command args)
    → parse (take k (command args)) ≡ failed incomplete
unfolding parse append_array
parse-take_lem args zero n h short = refl
parse-take_lem args (suc k) n h short =
    let parts = append_assoc (append_number (length args)) crlf (append_bulks args) in
    let size = length-append {0} (append_number (length args)) (crlf ++ append_bulks args) in
    rw parts (elim (line_take (length args) (append_bulks args) k n) [
      | inl q ↦ rw q (ground arith)
      | inr (far, q) ↦ rw q (
          ground (
            arith,
            parse_bulks-take args (k - (length (append_number (length args)) + 2)) h
                (omega (arith, size, short, ap length parts)),
          ))
    ])

-- For a command of at most 2^29 arguments of at most 2^29 bytes each: Parse reads its bytes back, in
-- front of any further bytes, and leaves those; and on every proper part of them it asks for more
-- bytes and reports no protocol error.
pub parse-command :
    (args : List Bytes)
    → length args ≤ max_bulk_len
    → AllFit args
    → ((rest : Bytes) → parse (command args ++ rest) ≡ parsed args rest)
      × ((k : ℕ) → k < length (command args) → parse (take k (command args)) ≡ failed incomplete)
parse-command args n h = (λ rest. parse-command_lem args rest n h, λ k. parse-take_lem args k n h)
