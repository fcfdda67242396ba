-- ===== src/Rbac/Role/Language.antt =====
-- The language of the rules of a role, as its users write them, and what it means.
use tellstone.Prelude.{ℕ, ◌==◌, Bool, false, ◌||◌, List, [], ◌∷◌, ◌++◌, Bytes, codes, has_prefix}

pub data Command : Type 0 where
  get_command set_command del_command ping_command command_command auth_command role_command
        acl_command info_command flush_command shutdown_command config_command debug_command
        monitor_command user_command grant_command revoke_command :
      Command

abbrev pub number : Command → ℕ
number get_command = 1
number set_command = 2
number del_command = 3
number ping_command = 4
number command_command = 5
number auth_command = 6
number role_command = 7
number acl_command = 8
number info_command = 9
number flush_command = 10
number shutdown_command = 11
number config_command = 12
number debug_command = 13
number monitor_command = 14
number user_command = 15
number grant_command = 16
number revoke_command = 17

abbrev pub name : Command → Bytes
name get_command = codes "get"
name set_command = codes "set"
name del_command = codes "del"
name ping_command = codes "ping"
name command_command = codes "command"
name auth_command = codes "auth"
name role_command = codes "role"
name acl_command = codes "acl"
name info_command = codes "info"
name flush_command = codes "flush"
name shutdown_command = codes "shutdown"
name config_command = codes "config"
name debug_command = codes "debug"
name monitor_command = codes "monitor"
name user_command = codes "user"
name grant_command = codes "grant"
name revoke_command = codes "revoke"

pub data Category : Type 0 where
  login_category read_category write_category readwrite_category operator_category
        maintenance_category admin_category all_category none_category :
      Category

abbrev pub title : Category → Bytes
title login_category = codes "login"
title read_category = codes "read"
title write_category = codes "write"
title readwrite_category = codes "readwrite"
title operator_category = codes "operator"
title maintenance_category = codes "maintenance"
title admin_category = codes "admin"
title all_category = codes "all"
title none_category = codes "none"

abbrev login_members : List Command
login_members = auth_command ∷ ping_command ∷ command_command ∷ []

abbrev read_members : List Command
read_members = get_command ∷ info_command ∷ []

abbrev write_members : List Command
write_members = set_command ∷ del_command ∷ []

abbrev readwrite_members : List Command
readwrite_members = read_members ++ (write_members ++ login_members)

abbrev pub members : Category → List Command
members login_category = login_members
members read_category = read_members
members write_category = write_members
members readwrite_category = readwrite_members
members operator_category = flush_command ∷ readwrite_members
members maintenance_category =
    flush_command ∷ shutdown_command ∷ config_command ∷ debug_command ∷ monitor_command ∷ []
members admin_category =
    auth_command ∷ role_command ∷ acl_command ∷ user_command ∷ grant_command ∷ revoke_command ∷ []
members all_category =
    get_command ∷ set_command ∷ del_command ∷ ping_command ∷ command_command ∷ auth_command
    ∷ role_command ∷ acl_command ∷ info_command ∷ flush_command ∷ shutdown_command ∷ config_command
    ∷ debug_command ∷ monitor_command ∷ user_command ∷ grant_command ∷ revoke_command ∷ []
members none_category = []

-- A rule; a prefix has a first byte and the rest.
pub data Token : Type 0 where
  may may_not : Command → Token
  may_all may_not_all : Category → Token
  within : ℕ → Bytes → Token
  anywhere : Token

-- +cmd, -cmd, +@category, -@category, ~prefix* and ~*
abbrev pub text : Token → Bytes
text (may c) = codes "+" ++ name c
text (may_not c) = codes "-" ++ name c
text (may_all c) = codes "+@" ++ title c
text (may_not_all c) = codes "-@" ++ title c
text (within c s) = codes "~" ++ (c ∷ (s ++ codes "*"))
text anywhere = codes "~*"

abbrev pub lists : List Command → Command → Bool
lists [] c = false
lists (d ∷ ds) c = number d == number c || lists ds c

abbrev pub gives : Command → Token → Bool
gives c (may d) = lists (d ∷ []) c
gives c (may_all k) = lists (members k) c
gives c _ = false

abbrev pub takes : Command → Token → Bool
takes c (may_not d) = lists (d ∷ []) c
takes c (may_not_all k) = lists (members k) c
takes c _ = false

abbrev pub some_gives : Command → List Token → Bool
some_gives c [] = false
some_gives c (t ∷ ts) = gives c t || some_gives c ts

abbrev pub some_takes : Command → List Token → Bool
some_takes c [] = false
some_takes c (t ∷ ts) = takes c t || some_takes c ts

-- The prefixes that are named; ~* names none.
abbrev pub spaces : List Token → List Bytes
spaces [] = []
spaces (within c s ∷ ts) = (c ∷ s) ∷ spaces ts
spaces (_ ∷ ts) = spaces ts

abbrev pub covers : List Bytes → Bytes → Bool
covers [] key = false
covers (p ∷ ps) key = has_prefix key p || covers ps key
