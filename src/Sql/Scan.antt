-- ===== src/Sql/Scan.antt =====
-- The helpers of internal/protocol/parser.go. A slice expression out of range panics, a nil slice is
-- `none`, and so is the index -1. An int64 is its bit pattern.
pub mod Quotes
pub mod Digits
use tellstone.Prelude.{
  ℕ, zero, suc, ◌+◌, ◌-◌, ◌*◌, ◌≤◌, Bool, true, false, ◌&&◌, ◌||◌, Option, none, some, List, [],
  ◌∷◌, Bytes, codes, length, take, drop, get_or, lower, add64, mul64, slt64, leb, ltb, ◌==◌,
  if◌then◌else◌,
}
use tellstone.Prelude.Run.{Run, done, panics, ◌>>=◌}

abbrev pub is_space : ℕ → Bool
is_space c = c == 32 || c == 9 || c == 10 || c == 13

-- The two loops of trimSpaceInline.
unfoldable pub trim_left : Bytes → Bytes
trim_left [] = []
trim_left (c ∷ s) = let rest = trim_left s in if is_space c then rest else c ∷ s

abbrev pub keep : ℕ → Bytes → Bytes
keep c [] = if is_space c then [] else c ∷ []
keep c (d ∷ s) = c ∷ d ∷ s

unfoldable pub trim_right : Bytes → Bytes
trim_right [] = []
trim_right (c ∷ s) = keep c (trim_right s)

unfoldable pub trim_space : Bytes → Bytes
unfolding trim_left trim_right
trim_space b = trim_right (trim_left b)

abbrev pub next : Option ℕ → Option ℕ
next none = none
next (some i) = some (suc i)

-- indexByte
unfoldable pub index_byte : Bytes → ℕ → Option ℕ
index_byte [] c = none
index_byte (v ∷ b) c = let rest = next (index_byte b c) in if v == c then some 0 else rest

-- hasPrefixCase; the prefix is in lower case.
unfoldable pub has_prefix_case : Bytes → Bytes → Bool
has_prefix_case b [] = true
has_prefix_case [] (p ∷ prefix) = false
has_prefix_case (c ∷ b) (p ∷ prefix) = lower c == p && has_prefix_case b prefix

-- indexCase: the first place at which the needle matches
unfoldable pub index_case : Bytes → Bytes → Option ℕ
unfolding has_prefix_case
index_case [] sub = if length sub == 0 then some 0 else none
index_case (c ∷ b) sub =
    let rest = next (index_case b sub) in if has_prefix_case (c ∷ b) sub then some 0 else rest

-- b[lo:hi] within the length
unfoldable pub slice : Bytes → ℕ → ℕ → Run Bytes
slice b lo hi = if leb lo hi && leb hi (length b) then done (take (hi - lo) (drop lo b)) else panics

-- b[lo:]
abbrev pub slice_from : Bytes → ℕ → Run Bytes
slice_from b lo = if leb lo (length b) then done (drop lo b) else panics

abbrev pub wrap_some : Run Bytes → Run (Option Bytes)
wrap_some r = r >>= λ b. done (some b)

-- The quotes at both ends of a trimmed slice that is not empty.
unfoldable pub is_quoted : Bytes → Bool
is_quoted b =
    (get_or b 0 0 == 39 && get_or b (length b - 1) 0 == 39)
    || (get_or b 0 0 == 34 && get_or b (length b - 1) 0 == 34)

-- extractQuotedValueInline, after its trim
unfoldable pub unquote : Bytes → Run (Option Bytes)
unfolding is_quoted slice
unquote b =
    if length b == 0
    then done none
    else if is_quoted b
    then wrap_some (slice b 1 (length b - 1))
    else done (some b)

unfoldable pub extract_quoted : Bytes → Run (Option Bytes)
unfolding trim_space unquote
extract_quoted b = unquote (trim_space b)

-- extractSelectKeyInline
unfoldable pub extract_select_key : Bytes → Run (Option Bytes)
unfolding index_case index_byte extract_quoted
extract_select_key b = elim (index_case b (codes "where")) [
  | none ↦ done none
  | some idx ↦ do
    sub ← slice_from b (idx + 5)
    elim (index_byte sub b'=') [
      | none ↦ done none
      | some eq ↦ do rest ← slice_from sub (eq + 1); extract_quoted rest
    ]
]

-- The digit loop over rem2: int64 arithmetic that wraps, up to the first byte that is no digit.
unfoldable pub ttl_digits : ℕ → Bytes → ℕ
ttl_digits val [] = val
ttl_digits val (c ∷ s) =
    let rest = ttl_digits (add64 (mul64 val 10) (c - b'0')) s in
    if leb b'0' c && leb c b'9' then rest else val

abbrev pub max_ttl_ms : ℕ
max_ttl_ms = 86400000

-- The optional third token: the TTL in nanoseconds, or `none` for the overflow flag.
unfoldable pub parse_ttl : Bytes → Option ℕ
unfolding ttl_digits
parse_ttl rem2 =
    if length rem2 == 0
    then some 0
    else if slt64 max_ttl_ms (ttl_digits 0 rem2)
    then none
    else some (mul64 (ttl_digits 0 rem2) 1000000)

pub record Payload : Type 0 where
  pub key : Option Bytes
  pub value : Option Bytes
  pub ttl : ℕ
  pub overflow : Bool

abbrev pub no_payload : Payload
no_payload = record { key = none; value = none; ttl = 0; overflow = false }

-- The tokens between the parentheses.
unfoldable pub split_args : Bytes → Run Payload
unfolding index_byte extract_quoted parse_ttl
split_args args = elim (index_byte args b',') [
  | none ↦ (do key ← extract_quoted args; done (record no_payload { key = key }))
  | some comma1 ↦ do
    key_text ← slice args 0 comma1
    key ← extract_quoted key_text
    rem1 ← slice_from args (comma1 + 1)
    elim (index_byte rem1 b',') [
      | none ↦ (do
        value ← extract_quoted rem1
        done (record no_payload { key = key; value = value }))
      | some comma2 ↦ do
        value_text ← slice rem1 0 comma2
        value ← extract_quoted value_text
        rest ← slice_from rem1 (comma2 + 1)
        elim (parse_ttl (trim_space rest)) [
          | none ↦ done (record no_payload { overflow = true })
          | some ttl ↦ done (record { key = key; value = value; ttl = ttl; overflow = false })
        ]
    ]
]

-- extractSetPayloadInline
unfoldable pub extract_set_payload : Bytes → Run Payload
unfolding index_case index_byte slice split_args
extract_set_payload b = elim (index_case b (codes "values")) [
  | none ↦ done no_payload
  | some idx ↦ do
    sub ← slice_from b idx
    elim (index_byte sub b'(') [
      | none ↦ done no_payload
      | some open_paren ↦ do
        inner ← slice_from sub open_paren
        elim (index_byte inner b')') [
          | none ↦ done no_payload
          | some close_paren ↦ do
            args ← slice sub (open_paren + 1) (open_paren + close_paren)
            split_args args
        ]
    ]
]
