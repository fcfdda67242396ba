-- ===== src/Resp/Protocol.antt =====
-- internal/resp/protocol.go: Parse on a buffer that begins at the command, and the Append functions
-- on what they append. The slices that Parse returns are copies here; an offset into the buffer is
-- the bytes from there on.
pub mod Numbers
pub mod Stream
use tellstone.Prelude.{
  ℕ, zero, suc, ◌+◌, ◌-◌, ◌*◌, ◌/◌, ◌%◌, Bool, true, false, not, ◌&&◌, ◌||◌, Option, none, some,
  List, [], ◌∷◌, ◌++◌, Bytes, codes, length, take, drop, ltb, leb, ◌==◌, get_or, if◌then◌else◌,
}
use tellstone.Command.Ttl.{atoi}

abbrev pub max_bulk_len : ℕ
max_bulk_len = 512 * 1024 * 1024

pub data Error : Type 0 where
  incomplete malformed : Error

-- An integer and the bytes behind its CRLF.
pub data Line : Type 0 where
  no_line : Error → Line
  line : ℕ → Bytes → Line

-- buf[start:i] and buf[i:], where i is the first carriage return.
unfoldable pub split_cr : Bytes → Bytes × Bytes
split_cr [] = ([], [])
split_cr (c ∷ s) =
    let (digits, rest) = split_cr s in if c == 13 then ([], c ∷ s) else (c ∷ digits, rest)

abbrev pub number_line : Option ℕ → Bytes → Line
number_line none rest = no_line malformed
number_line (some v) rest = line v rest

-- parseLine
unfoldable pub parse_line : Bytes → Line
unfolding split_cr
parse_line s =
    if ltb (length (split_cr s).1) 2
    then no_line incomplete
    else if not (get_or (split_cr s).1 1 0 == 10)
    then no_line malformed
    else number_line (atoi (split_cr s).0) (drop 2 (split_cr s).1)

-- A command's arguments and the bytes behind it.
pub data Parsed : Type 0 where
  failed : Error → Parsed
  parsed : List Bytes → Bytes → Parsed

-- The part of one turn of Parse's loop behind parseLine: the argument and the bytes behind it.
pub data Bulk : Type 0 where
  no_bulk : Error → Bulk
  bulk : Bytes → Bytes → Bulk

unfoldable pub bulk_body : ℕ → Bytes → Bulk
bulk_body blen s =
    if ltb max_bulk_len blen
    then no_bulk malformed
    else if ltb (length s) (blen + 2)
    then no_bulk incomplete
    else if not (get_or s blen 0 == 13) || not (get_or s (blen + 1) 0 == 10)
    then no_bulk malformed
    else bulk (take blen s) (drop (blen + 2) s)

-- One turn of Parse's loop.
unfoldable pub parse_bulk : Bytes → Bulk
unfolding parse_line bulk_body
parse_bulk [] = no_bulk incomplete
parse_bulk (c ∷ s) =
    if not (c == b'$')
    then no_bulk malformed
    else elim (parse_line s) [ no_line e ↦ no_bulk e | line blen rest ↦ bulk_body blen rest ]

-- Parse's loop.
unfoldable pub parse_bulks : ℕ → Bytes → Parsed
unfolding parse_bulk
parse_bulks zero s = parsed [] s
parse_bulks (suc n) s = elim (parse_bulk s) [
  | no_bulk e ↦ failed e
  | bulk b rest ↦ elim (parse_bulks n rest) [
    | failed e ↦ failed e
    | parsed args rest' ↦ parsed (b ∷ args) rest'
  ]
]

unfoldable pub parse : Bytes → Parsed
unfolding parse_line parse_bulks
parse [] = failed incomplete
parse (c ∷ s) = if not (c == b'*') then failed malformed else elim (parse_line s) [
  | no_line e ↦ failed e
  | line n rest ↦ if ltb max_bulk_len n then failed malformed else parse_bulks n rest
]

abbrev pub crlf : Bytes
crlf = 13 ∷ 10 ∷ []

-- The decimal digits that strconv.AppendInt writes of a number below 10 ^ fuel.
unfoldable pub digits : ℕ → ℕ → Bytes
digits zero n = []
digits (suc f) n =
    let front = digits f (n / 10) in
    if ltb n 10 then (b'0' + n) ∷ [] else front ++ (b'0' + n % 10) ∷ []

-- strconv.AppendInt on a length
unfoldable pub append_number : ℕ → Bytes
unfolding digits
append_number n = digits 19 n

-- AppendBulk
unfoldable pub append_bulk : Bytes → Bytes
unfolding append_number
append_bulk b = b'$' ∷ append_number (length b) ++ (crlf ++ (b ++ crlf))

-- AppendArray
unfoldable pub append_array : ℕ → Bytes
unfolding append_number
append_array n = b'*' ∷ append_number n ++ crlf

abbrev pub append_bulks : List Bytes → Bytes
append_bulks [] = []
append_bulks (b ∷ bs) = append_bulk b ++ append_bulks bs

-- AppendSimpleString, AppendError and AppendNullBulk
unfoldable pub append_simple_string : Bytes → Bytes
append_simple_string s = b'+' ∷ s ++ crlf

unfoldable pub append_error : Bytes → Bytes
append_error s = b'-' ∷ s ++ crlf

unfoldable pub append_null_bulk : Bytes
append_null_bulk = codes "$-1" ++ crlf

-- EqualFold; b is upper-case.
unfoldable pub equal_fold : Bytes → Bytes → Bool
equal_fold [] [] = true
equal_fold [] (y ∷ b) = false
equal_fold (x ∷ a) [] = false
equal_fold (x ∷ a) (y ∷ b) = (if leb b'a' x && leb x b'z' then x - 32 else x) == y && equal_fold a b
