-- ===== src/Sql/Query.antt =====
-- ParseQuery of internal/protocol/parser.go with the types of protocol.go.
pub mod RoundTrip
use tellstone.Prelude.{
  ℕ, ◌≡◌, refl, Bool, ◌||◌, Option, none, some, [], Bytes, codes, length, ◌==◌, if◌then◌else◌,
}
use tellstone.Prelude.Run.{Run, done, ◌>>=◌}
use tellstone.Sql.Scan.{
  trim_space, has_prefix_case, extract_select_key, extract_set_payload, Payload,
}

pub data CommandType : Type 0 where
  cmd_unknown cmd_get cmd_set cmd_delete : CommandType

pub record ParsedQuery : Type 0 where
  pub type : CommandType
  pub key : Option Bytes
  pub value : Option Bytes
  pub ttl : ℕ

pub data Error : Type 0 where
  err_parse err_ttl_overflow : Error

abbrev pub empty_query : ParsedQuery
empty_query = record { type = cmd_unknown; key = none; value = none; ttl = 0 }

abbrev pub Parsed : Type 0
Parsed = ParsedQuery × Option Error

abbrev pub is_nil : Option Bytes → Bool
is_nil none = Bool.true
is_nil (some b) = Bool.false

-- The cases of SELECT and DELETE.
unfoldable pub by_key : CommandType → Bytes → Run Parsed
unfolding extract_select_key
by_key type text = do
  key ← extract_select_key text
  done (record empty_query { type = type; key = key }, if is_nil key then some err_parse else none)

-- The case of INSERT.
unfoldable pub by_payload : Bytes → Run Parsed
unfolding extract_set_payload
by_payload text = do
  p ← extract_set_payload text
  done (
    record { type = cmd_set; key = p.key; value = p.value; ttl = p.ttl },
    if p.overflow
        then some err_ttl_overflow
        else if is_nil p.key || is_nil p.value
        then some err_parse
        else none,
  )

-- ParseQuery
unfoldable pub parse_query : Bytes → Run Parsed
unfolding trim_space has_prefix_case by_key by_payload
parse_query raw =
    let trimmed = trim_space raw in
    if length trimmed == 0
    then done (empty_query, some err_parse)
    else if has_prefix_case trimmed (codes "select")
    then by_key cmd_get trimmed
    else if has_prefix_case trimmed (codes "insert")
    then by_payload trimmed
    else if has_prefix_case trimmed (codes "delete")
    then by_key cmd_delete trimmed
    else done (empty_query, some err_parse)

select_test :
    parse_query (codes " SELECT v FROM kv where KEY = \"ab\" ")
    ≡ done (record empty_query { type = cmd_get; key = some (codes "ab") }, none)
unfolding parse_query
select_test = refl
