-- ===== src/Rbac/Catalog.antt =====
-- internal/rbac/cmd.go: the command ids, their names and the categories. Names are ASCII: of the
-- case mappings of the strings package only the ASCII letters are modelled.
use tellstone.Prelude.{ℕ, Option, List, [], ◌∷◌, map, Bytes, codes, upper, lower, if◌then◌else◌}
use tellstone.Prelude.Table.{Table, lookup}
use tellstone.Rbac.Bitset.{member}

abbrev pub cmd_get : ℕ
cmd_get = 1

abbrev pub cmd_set : ℕ
cmd_set = 2

abbrev pub cmd_del : ℕ
cmd_del = 3

abbrev pub cmd_role : ℕ
cmd_role = 7

abbrev pub cmd_acl : ℕ
cmd_acl = 8

-- AllCommands: CmdGet to CmdRevoke
abbrev pub all_commands : List ℕ
all_commands = 1 ∷ 2 ∷ 3 ∷ 4 ∷ 5 ∷ 6 ∷ 7 ∷ 8 ∷ 9 ∷ 10 ∷ 11 ∷ 12 ∷ 13 ∷ 14 ∷ 15 ∷ 16 ∷ 17 ∷ []

abbrev pub command_names : Table ℕ
command_names =
    (codes "GET", 1)
    ∷ (codes "SET", 2)
    ∷ (codes "DEL", 3)
    ∷ (codes "PING", 4)
    ∷ (codes "COMMAND", 5)
    ∷ (codes "AUTH", 6)
    ∷ (codes "ROLE", 7)
    ∷ (codes "ACL", 8)
    ∷ (codes "INFO", 9)
    ∷ (codes "FLUSH", 10)
    ∷ (codes "SHUTDOWN", 11)
    ∷ (codes "CONFIG", 12)
    ∷ (codes "DEBUG", 13)
    ∷ (codes "MONITOR", 14)
    ∷ (codes "USER", 15)
    ∷ (codes "GRANT", 16)
    ∷ (codes "REVOKE", 17)
    ∷ []

-- LookupCommand
unfoldable pub lookup_command : Bytes → Option ℕ
unfolding lookup
lookup_command name = lookup (map upper name) command_names

-- CommandName, over the entries of commandNames
unfoldable pub name_in : Table ℕ → ℕ → Bytes
name_in [] id = []
name_in ((name, cmd) ∷ rest) id = if member id (cmd ∷ []) then name else name_in rest id

unfoldable pub command_name : ℕ → Bytes
unfolding name_in member
command_name id = name_in command_names id

abbrev pub categories : Table (List ℕ)
categories =
    (codes "login", 6 ∷ 4 ∷ 5 ∷ [])
    ∷ (codes "read", 1 ∷ 9 ∷ [])
    ∷ (codes "write", 2 ∷ 3 ∷ [])
    ∷ (codes "readwrite", 1 ∷ 2 ∷ 3 ∷ 4 ∷ 5 ∷ 9 ∷ 6 ∷ [])
    ∷ (codes "operator", 1 ∷ 2 ∷ 3 ∷ 4 ∷ 5 ∷ 9 ∷ 6 ∷ 10 ∷ [])
    ∷ (codes "maintenance", 10 ∷ 11 ∷ 12 ∷ 13 ∷ 14 ∷ [])
    ∷ (codes "admin", 6 ∷ 7 ∷ 8 ∷ 15 ∷ 16 ∷ 17 ∷ [])
    ∷ (codes "all", all_commands)
    ∷ (codes "none", [])
    ∷ []

-- Category; nil is `none`, and the category "none" is an empty slice that is not nil.
unfoldable pub category : Bytes → Option (List ℕ)
unfolding lookup
category name = lookup name categories

-- categoryIDs of parser.go
unfoldable pub category_ids : Bytes → Option (List ℕ)
unfolding category
category_ids name = category (map lower name)
