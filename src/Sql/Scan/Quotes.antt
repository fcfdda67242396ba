-- ===== src/Sql/Scan/Quotes.antt =====
-- extractQuotedValueInline and the number of the third token of VALUES.
use tellstone.Prelude.{◌≡◌, ◌↔◌, ◌⊎◌, [], ◌∷◌, Bytes, arith}
use tellstone.Prelude.Run.{panics}
use tellstone.Sql.Scan.{trim_space, unquote, is_quoted, slice, extract_quoted}

pub unquote-panics : (b : Bytes) → (unquote b ≡ panics) ↔ (b ≡ 39 ∷ []) ⊎ (b ≡ 34 ∷ [])
unfolding unquote is_quoted slice
unquote-panics [] = ground arith
unquote-panics (c ∷ []) = ground arith
unquote-panics (c ∷ d ∷ s) = ground arith

-- Extracting a value panics exactly if the text without surrounding spaces is one lone quote, single
-- or double.
pub extract_quoted-panics :
    (b : Bytes) → (extract_quoted b ≡ panics) ↔ (trim_space b ≡ 39 ∷ []) ⊎ (trim_space b ≡ 34 ∷ [])
unfolding extract_quoted
extract_quoted-panics b = unquote-panics (trim_space b)
