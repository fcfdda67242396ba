-- ===== src/Rbac/Role/Meaning.antt =====
-- ParseRole gives the rules of a role their meaning.
use tellstone.Prelude.{
  ℕ, ◌==◌, ◌≡◌, refl, ap, ◌∙◌, false, not, ◌||◌, ◌&&◌, some, List, [], ◌∷◌, ◌++◌, Bytes, codes,
  bytes_eq, has_prefix, length, arith,
}
use tellstone.Prelude.Table.{lookup}
use tellstone.Rbac.Bitset.{member, new_bitset, revoke_all}
use tellstone.Rbac.Catalog.{lookup_command, category_ids, category}
use tellstone.Rbac.Role.{
  Role, Rule, grants, denies, allows, allows_all, parse_rule, namespace_rule, trim_star, Draft,
  add_rule, add_rules, parse_role, is_allowed, new_session, any_prefix,
}
use tellstone.Rbac.Role.Rules.{
  rule_grants, rule_denies, rule_prefixes, granted, denied, prefixes, parse_role-is_allowed,
}
use tellstone.Rbac.Role.Language.{
  Command, number, Category, members, Token, may, may_not, may_all, may_not_all, within, anywhere,
  text, lists, gives, takes, some_gives, some_takes, spaces, covers, get_command, set_command,
  del_command, ping_command, command_command, auth_command, role_command, acl_command, info_command,
  flush_command, shutdown_command, config_command, debug_command, monitor_command, user_command,
  grant_command, revoke_command, login_category, read_category, write_category, readwrite_category,
  operator_category, maintenance_category, admin_category, all_category, none_category,
}

-- The text of a command or a category is read as the rule of its number or numbers.
command_lem :
    (c : Command)
    → (parse_rule (text (may c)) ≡ some (grants (number c ∷ [])))
      × (parse_rule (text (may_not c)) ≡ some (denies (number c ∷ [])))
unfolding parse_rule has_prefix lookup_command lookup bytes_eq
command_lem get_command = (refl, refl)
command_lem set_command = (refl, refl)
command_lem del_command = (refl, refl)
command_lem ping_command = (refl, refl)
command_lem command_command = (refl, refl)
command_lem auth_command = (refl, refl)
command_lem role_command = (refl, refl)
command_lem acl_command = (refl, refl)
command_lem info_command = (refl, refl)
command_lem flush_command = (refl, refl)
command_lem shutdown_command = (refl, refl)
command_lem config_command = (refl, refl)
command_lem debug_command = (refl, refl)
command_lem monitor_command = (refl, refl)
command_lem user_command = (refl, refl)
command_lem grant_command = (refl, refl)
command_lem revoke_command = (refl, refl)

category_ids_lem :
    (k : Category)
    → (ids : List ℕ) × (parse_rule (text (may_all k)) ≡ some (grants ids))
      × (parse_rule (text (may_not_all k)) ≡ some (denies ids))
      × ((c : Command) → member (number c) ids ≡ lists (members k) c)
unfolding parse_rule has_prefix category_ids category lookup bytes_eq member
category_ids_lem login_category = (_, refl, refl, λ c. ground arith)
category_ids_lem read_category = (_, refl, refl, λ c. ground arith)
category_ids_lem write_category = (_, refl, refl, λ c. ground arith)
category_ids_lem readwrite_category = (_, refl, refl, λ c. ground arith)
category_ids_lem operator_category = (_, refl, refl, λ c. ground arith)
category_ids_lem maintenance_category = (_, refl, refl, λ c. ground arith)
category_ids_lem admin_category = (_, refl, refl, λ c. ground arith)
category_ids_lem all_category = (_, refl, refl, λ c. ground arith)
category_ids_lem none_category = (_, refl, refl, λ c. ground arith)

trim_star-snoc : (s : Bytes) → trim_star (s ++ codes "*") ≡ s
unfolding trim_star
trim_star-snoc [] = refl
trim_star-snoc (c ∷ []) = refl
trim_star-snoc (c ∷ d ∷ s) = ap (◌∷◌ c) (trim_star-snoc (d ∷ s))

not_empty : (s : Bytes) → bytes_eq (s ++ codes "*") [] ≡ false
unfolding bytes_eq
not_empty [] = refl
not_empty (c ∷ s) = refl

namespace_lem : (c : ℕ) (s : Bytes) → namespace_rule (c ∷ (s ++ codes "*")) ≡ some (allows (c ∷ s))
unfolding namespace_rule
namespace_lem c s = rw (trim_star-snoc (c ∷ s)) (ground arith)

within_lem : (c : ℕ) (s : Bytes) → parse_rule (text (within c s)) ≡ some (allows (c ∷ s))
unfolding parse_rule has_prefix bytes_eq
within_lem c s = ground (arith, not_empty s, namespace_lem c s)

-- The rule that a token is read as.
abbrev Reads : Token → Rule → Type 0
Reads t r =
    (parse_rule (text t) ≡ some r)
    × ((c : Command) → rule_grants (number c) (some r) ≡ gives c t)
    × ((c : Command) → rule_denies (number c) (some r) ≡ takes c t)
    × (rule_prefixes (some r) ≡ spaces (t ∷ []))

parse_rule-Reads : (t : Token) → (r : Rule) × Reads t r
unfolding member
parse_rule-Reads (may d) = (grants (number d ∷ []), ((command_lem d).0, λ c. refl, λ c. refl, refl))
parse_rule-Reads (may_not d) =
    (denies (number d ∷ []), ((command_lem d).1, λ c. refl, λ c. refl, refl))
parse_rule-Reads (may_all k) =
    let (ids, plus, minus, same) = category_ids_lem k in (grants ids, (plus, same, λ c. refl, refl))
parse_rule-Reads (may_not_all k) =
    let (ids, plus, minus, same) = category_ids_lem k in
    (denies ids, (minus, λ c. refl, same, refl))
parse_rule-Reads (within c s) = (allows (c ∷ s), (within_lem c s, λ d. refl, λ d. refl, refl))
parse_rule-Reads anywhere =
    (allows_all, ((unfold parse_rule has_prefix bytes_eq in refl), λ c. refl, λ c. refl, refl))

abbrev pub texts : List Token → List Bytes
texts [] = []
texts (t ∷ ts) = text t ∷ texts ts

-- The loop of ParseRole takes every list of tokens.
add_rules-texts : (d : Draft) (ts : List Token) → (d' : Draft) × (add_rules d (texts ts) ≡ some d')
unfolding add_rules
add_rules-texts d [] = (d, refl)
add_rules-texts d (t ∷ ts) =
    let (r, (q, given, taken, p)) = parse_rule-Reads t in
    let (d', e) = add_rules-texts (add_rule d r) ts in (d', rw (add_rules, q) e)

some_gives_lem : (c : Command) (ts : List Token) → granted (number c) (texts ts) ≡ some_gives c ts
unfolding granted
some_gives_lem c [] = refl
some_gives_lem c (t ∷ ts) =
    let (r, (q, given, taken, p)) = parse_rule-Reads t in
    ap (λ x. rule_grants (number c) x || granted (number c) (texts ts)) q
    ∙ ap (λ b. b || granted (number c) (texts ts)) (given c)
    ∙ ap (λ b. gives c t || b) (some_gives_lem c ts)

some_takes_lem : (c : Command) (ts : List Token) → denied (number c) (texts ts) ≡ some_takes c ts
unfolding denied
some_takes_lem c [] = refl
some_takes_lem c (t ∷ ts) =
    let (r, (q, given, taken, p)) = parse_rule-Reads t in
    ap (λ x. rule_denies (number c) x || denied (number c) (texts ts)) q
    ∙ ap (λ b. b || denied (number c) (texts ts)) (taken c)
    ∙ ap (λ b. takes c t || b) (some_takes_lem c ts)

spaces-cons : (t : Token) (ts : List Token) → spaces (t ∷ []) ++ spaces ts ≡ spaces (t ∷ ts)
spaces-cons (may c) ts = refl
spaces-cons (may_not c) ts = refl
spaces-cons (may_all k) ts = refl
spaces-cons (may_not_all k) ts = refl
spaces-cons (within c s) ts = refl
spaces-cons anywhere ts = refl

spaces_lem : (ts : List Token) → prefixes (texts ts) ≡ spaces ts
unfolding prefixes
spaces_lem [] = refl
spaces_lem (t ∷ ts) =
    let (r, (q, given, taken, p)) = parse_rule-Reads t in
    ap (λ x. rule_prefixes x ++ prefixes (texts ts)) q
    ∙ ap (λ l. l ++ prefixes (texts ts)) p
    ∙ ap (λ l. spaces (t ∷ []) ++ l) (spaces_lem ts)
    ∙ spaces-cons t ts

any_prefix-covers : (ps : List Bytes) (key : Bytes) → any_prefix ps key ≡ covers ps key
unfolding any_prefix
any_prefix-covers [] key = refl
any_prefix-covers (p ∷ ps) key = ap (λ b. has_prefix key p || b) (any_prefix-covers ps key)

parse_role-texts :
    (ref : ℕ) (label : Bytes) (t : Token) (ts : List Token)
    → (role : Role) × (parse_role ref label (texts (t ∷ ts)) ≡ some role)
unfolding parse_role
parse_role-texts ref label t ts =
    let (d, e) =
      add_rules-texts (record { perms = new_bitset []; denied = []; prefixes = [] }) (t ∷ ts) in
    (
      record {
        ref = ref;
        name = label;
        permissions = revoke_all d.perms d.denied;
        namespaces = d.prefixes;
      },
      rw (parse_role, e) refl,
    )

-- Every list of one rule or more, of the seventeen commands, the nine categories, prefixes of one byte
-- or more before a star, and ~*, is taken by ParseRole; and a session on the role may run a command
-- on a key exactly if some rule gives the command or a category that has it, none takes either away,
-- wherever they stand, and the key begins with one of the prefixes or no rule names one: a ~* beside
-- a prefix does not let other keys in.
pub parse_role-allows :
    (ref : ℕ) (label : Bytes) (t : Token) (ts : List Token)
    → (role : Role) × (parse_role ref label (texts (t ∷ ts)) ≡ some role)
      × ((username key : Bytes) (c : Command)
          → is_allowed (new_session username (some role)) (number c) key ≡ (
              (some_gives c (t ∷ ts) && not (some_takes c (t ∷ ts)))
              && (covers (spaces (t ∷ ts)) key || length (spaces (t ∷ ts)) == 0)))
parse_role-allows ref label t ts =
    let (role, built) = parse_role-texts ref label t ts in
    (
      role,
      built,
      λ username key c.
          parse_role-is_allowed ref label (texts (t ∷ ts)) role username (number c) key built
          ∙ rw
              (
                some_gives_lem c (t ∷ ts),
                some_takes_lem c (t ∷ ts),
                spaces_lem (t ∷ ts),
                any_prefix-covers (spaces (t ∷ ts)) key,
              )
              refl,
    )
