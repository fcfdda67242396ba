-- ===== src/Tests/Commands.antt =====
-- The command layer and the SQL scanner on concrete inputs. The store is a list of entries without
-- expiry.
use tellstone.Prelude.{
  ℕ, ◌+◌, ◌*◌, ◌≡◌, ◌↔◌, ◌⊎◌, refl, Bool, true, false, none, some, List, [], ◌∷◌, ◌++◌, Bytes,
  codes, bytes_eq, arith, map, lower, add64, leb, if◌then◌else◌, ◌==◌,
}
use tellstone.Prelude.Run.{done, panics}
use tellstone.Prelude.Table.{Table, lookup, insert, erase}
use tellstone.Rbac.Bitset.{has}
use tellstone.Rbac.Role.{Role, Session, new_session, is_allowed, allows_command, allows_key}
use tellstone.Rbac.AuthLog.{new_log, auth_log}
use tellstone.Rbac.AuthLog.Ring.{newest, new_log-IsRing}
use tellstone.Command.Store.{Store}
use tellstone.Command.Ttl.{second, parse_set_ttl, atoi}
use tellstone.Command.Ttl.Range.{parse_set_ttl_exact, parse_set_ttl_wraps}
use tellstone.Command.Execute.{
  denied, Name, del_cmd, name_of, rbac_id, keys, lookup_command, lookup_in, State, Ctx, deny_key,
  first_denied, execute,
}
use tellstone.Command.Execute.Gate.{AllAllowed, execute-AllAllowed, execute-denied}
use tellstone.Sql.Scan.{trim_space, extract_quoted, parse_ttl, max_ttl_ms}
use tellstone.Sql.Scan.Quotes.{extract_quoted-panics}
use tellstone.Sql.Scan.Digits.{numeral, parse_ttl-IsNumeral, parse_ttl-wraps}
use tellstone.Sql.Query.{cmd_get, cmd_delete, empty_query, parse_query}
use tellstone.Sql.Query.RoundTrip.{select_text, delete_text, parse_query-select_text}
use tellstone.Storage.Engine.{expires_at}

abbrev deleted : Table Bytes → Bytes → Table Bytes × Bool
deleted s k = (erase k s, elim (lookup k s) [ none ↦ false | some _ ↦ true ])

abbrev entries : Store (Table Bytes) Bytes
entries = record {
  get = λ k s. (s, lookup k s);
  set = λ k v ttl s. (insert k v s, none);
  delete = λ k s. deleted s k;
}

-- DEL on the keys that begin with "u".
abbrev role : Role
role = record { ref = 0; name = codes "r"; permissions = 8 ∷ []; namespaces = codes "u" ∷ [] }

abbrev ctx : Ctx
ctx = record {
  ttl = 0;
  has_policy = true;
  session = some (new_session (codes "ann") (some role));
  remote = [];
  has_audit = true;
  now = 7;
}

abbrev args : List Bytes
args = codes "u1" ∷ codes "x1" ∷ []

abbrev state : State (Table Bytes)
state = record {
  store = (codes "u1", codes "v") ∷ (codes "x1", codes "w") ∷ [];
  log = new_log;
  role_counts = λ i. 0;
  audit = [];
}

execute-AllAllowed_example :
    ((execute entries ctx (codes "del" ∷ args) state).0.store ≡ state.store)
    ⊎ ((cmd : Name) × (lookup_command (codes "del") ≡ some cmd)
        × (s : Session) × (ctx.session ≡ some s)
        × AllAllowed s (rbac_id cmd) (keys cmd (codes "del" ∷ args)))
execute-AllAllowed_example = execute-AllAllowed entries ctx (codes "del") args state refl

execute-denied_example :
    let out = execute entries ctx (codes "del" ∷ args) state in
    (out.1 ≡ some (denied (map lower (name_of del_cmd))))
    × (out.0.store ≡ state.store)
    × (out.0.role_counts ≡ state.role_counts)
    × (out.0.log.denied_commands ≡ add64 state.log.denied_commands 1)
    × (auth_log out.0.log
        ≡ newest (
            auth_log state.log
            ++ record {
              timestamp = 7;
              username = codes "ann";
              remote_addr = [];
              reason =
                  codes "NOPERM command="
                  ++ (map lower (name_of del_cmd) ++ (codes " key=" ++ codes "x1"));
            }
              ∷ []))
unfolding lookup_command lookup_in deny_key first_denied is_allowed allows_command allows_key
    new_session has
execute-denied_example =
    execute-denied entries ctx (codes "del") args del_cmd (codes "x1") state refl refl (omega arith)
      refl new_log-IsRing

parse_set_ttl_exact_example :
    (parse_set_ttl (codes "set" ∷ codes "k" ∷ codes "v" ∷ codes "ex" ∷ codes "10" ∷ [])
      ≡ some (10 * second))
    × (expires_at 3 (10 * second) ≡ some (3 + 10 * second))
unfolding atoi bytes_eq
parse_set_ttl_exact_example =
    parse_set_ttl_exact (codes "set") (codes "k") (codes "v") (codes "ex") (codes "10") 10 second 3
      (omega arith, (omega arith, tt)) refl refl (omega arith) (omega arith)

parse_set_ttl_wraps_example :
    (ttl : ℕ) × (parse_set_ttl
        (codes "set" ∷ codes "k" ∷ codes "v" ∷ codes "EX" ∷ codes "9223372037" ∷ [])
      ≡ some ttl)
    × ((ttl == 0) ≡ false)
    × (expires_at 3 ttl ≡ none)
unfolding atoi
parse_set_ttl_wraps_example =
    parse_set_ttl_wraps (codes "set") (codes "k") (codes "v") (codes "EX") (codes "9223372037")
      9223372037 3 (omega arith, (omega arith, tt)) refl refl (omega arith) (omega arith)

parse_query-select_text_example :
    (parse_query (select_text (codes "k'='"))
      ≡ done (record empty_query { type = cmd_get; key = some (codes "k'='") }, none))
    × (parse_query (delete_text (codes "k'='"))
        ≡ done (record empty_query { type = cmd_delete; key = some (codes "k'='") }, none))
parse_query-select_text_example = parse_query-select_text (codes "k'='")

extract_quoted-panics_example :
    (extract_quoted (codes " ' ") ≡ panics)
    ↔ (trim_space (codes " ' ") ≡ 39 ∷ []) ⊎ (trim_space (codes " ' ") ≡ 34 ∷ [])
extract_quoted-panics_example = extract_quoted-panics (codes " ' ")

parse_ttl-IsNumeral_example : parse_ttl (codes "86400001") ≡ (
    if leb (numeral 0 (codes "86400001")) max_ttl_ms
    then some (numeral 0 (codes "86400001") * 1000000)
    else none)
parse_ttl-IsNumeral_example =
    parse_ttl-IsNumeral b'8' (codes "6400001") (ground arith) (omega arith)

parse_ttl-wraps_example : parse_ttl (codes "18446744073709551617") ≡ some (1 * 1000000)
parse_ttl-wraps_example =
    parse_ttl-wraps b'1' 1 (codes "8446744073709551617") (ground arith) refl (omega arith)
