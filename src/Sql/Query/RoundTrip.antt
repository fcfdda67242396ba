-- ===== src/Sql/Query/RoundTrip.antt =====
-- The quoted key of a SELECT or a DELETE, from the text back to the query.
use tellstone.Prelude.{
  suc, ◌-◌, ◌≡◌, refl, none, some, [], ◌∷◌, ◌++◌, Bytes, codes, arith, length, get_or, take-append,
  length-append,
}
use tellstone.Prelude.Run.{done}
use tellstone.Sql.Scan.{
  trim_space, trim_left, trim_right, is_quoted, slice, unquote, extract_quoted, index_case,
  index_byte, has_prefix_case, extract_select_key,
}
use tellstone.Sql.Query.{cmd_get, cmd_delete, empty_query, by_key, parse_query}

abbrev quote : Bytes
quote = b'\'' ∷ []

abbrev pub select_text : Bytes → Bytes
select_text key = codes "SELECT value FROM kv WHERE key='" ++ key ++ quote

abbrev pub delete_text : Bytes → Bytes
delete_text key = codes "DELETE FROM kv WHERE key='" ++ key ++ quote

get_or-last : (xs : Bytes) → get_or (xs ++ quote) (length xs) 0 ≡ b'\''
get_or-last [] = refl
get_or-last (c ∷ xs) = get_or-last xs

trim_right-quote : (xs : Bytes) → trim_right (xs ++ quote) ≡ xs ++ quote
unfolding trim_right
trim_right-quote [] = refl
trim_right-quote (c ∷ []) = refl
trim_right-quote (c ∷ d ∷ xs) = rw (trim_right-quote (d ∷ xs)) refl

unquote-quote : (key : Bytes) → unquote (b'\'' ∷ key ++ quote) ≡ done (some key)
unfolding unquote is_quoted slice
unquote-quote key =
    let l = length-append key quote in
    let g = get_or-last key in
    let t = take-append key quote in
    let m : suc (length (key ++ quote)) - 1 ≡ suc (length key) = omega (arith, l) in
    ground (arith, l, g, t, m)

extract_quoted-quote : (key : Bytes) → extract_quoted (b'\'' ∷ key ++ quote) ≡ done (some key)
unfolding extract_quoted trim_space trim_left
extract_quoted-quote key = rw (trim_right-quote (b'\'' ∷ key)) (unquote-quote key)

trim-select : (key : Bytes) → trim_space (select_text key) ≡ select_text key
unfolding trim_space trim_left
trim-select key = trim_right-quote (codes "SELECT value FROM kv WHERE key='" ++ key)

index-select : (key : Bytes) → index_case (select_text key) (codes "where") ≡ some 21
unfolding index_case has_prefix_case
index-select key = refl

extract-select : (key : Bytes) → extract_select_key (select_text key) ≡ done (some key)
unfolding extract_select_key index_byte
extract-select key = ground (arith, index-select key, extract_quoted-quote key)

trim-delete : (key : Bytes) → trim_space (delete_text key) ≡ delete_text key
unfolding trim_space trim_left
trim-delete key = trim_right-quote (codes "DELETE FROM kv WHERE key='" ++ key)

index-delete : (key : Bytes) → index_case (delete_text key) (codes "where") ≡ some 15
unfolding index_case has_prefix_case
index-delete key = refl

extract-delete : (key : Bytes) → extract_select_key (delete_text key) ≡ done (some key)
unfolding extract_select_key index_byte
extract-delete key = ground (arith, index-delete key, extract_quoted-quote key)

-- A SELECT and a DELETE that quote any key, whatever its bytes, are parsed to the query with that
-- key and without an error.
pub parse_query-select_text :
    (key : Bytes)
    → (parse_query (select_text key)
        ≡ done (record empty_query { type = cmd_get; key = some key }, none))
      × (parse_query (delete_text key)
          ≡ done (record empty_query { type = cmd_delete; key = some key }, none))
unfolding parse_query has_prefix_case by_key
parse_query-select_text key = (
  ground (arith, trim-select key, extract-select key),
  ground (arith, trim-delete key, extract-delete key),
)
