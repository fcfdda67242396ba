-- ===== src/Rbac/Role/Rules.antt =====
-- What a parsed role grants.
use tellstone.Prelude.{
  ℕ, ◌≡◌, refl, Bool, false, not, ◌&&◌, ◌||◌, Option, some, List, [], ◌∷◌, ◌++◌, Bytes, arith, sym,
  ap, ◌∙◌, Option-cases, inl, inr, length, ◌==◌,
}
use mathlib.Core.List.{append-nil, append_assoc}
use mathlib.Core.Option.{some-injective}
use tellstone.Rbac.Bitset.{has, member, new_bitset, has-grant_all, has-revoke_all, has-new_bitset}
use tellstone.Rbac.Role.{
  Role, Rule, grants, denies, allows, allows_all, parse_rule, Draft, add_rule, add_rules,
  parse_role, is_allowed, new_session, allows_key, any_prefix,
}

-- Whether some rule of the list grants, or denies, a command; and the prefixes it allows.
abbrev pub rule_grants : ℕ → Option Rule → Bool
rule_grants id (some (grants ids)) = member id ids
rule_grants id _ = false

abbrev pub rule_denies : ℕ → Option Rule → Bool
rule_denies id (some (denies ids)) = member id ids
rule_denies id _ = false

abbrev pub rule_prefixes : Option Rule → List Bytes
rule_prefixes (some (allows prefix)) = prefix ∷ []
rule_prefixes _ = []

unfoldable pub granted : ℕ → List Bytes → Bool
granted id [] = false
granted id (rule ∷ rest) = rule_grants id (parse_rule rule) || granted id rest

unfoldable pub denied : ℕ → List Bytes → Bool
denied id [] = false
denied id (rule ∷ rest) = rule_denies id (parse_rule rule) || denied id rest

unfoldable pub prefixes : List Bytes → List Bytes
prefixes [] = []
prefixes (rule ∷ rest) = rule_prefixes (parse_rule rule) ++ prefixes rest

member-append : (id : ℕ) (xs ys : List ℕ) → member id (xs ++ ys) ≡ (member id xs || member id ys)
unfolding member
member-append id [] ys = refl
member-append id (x ∷ xs) ys = ground (arith, member-append id xs ys)

-- One rule, against the accumulators.
add_rule_lem :
    (d : Draft) (r : Rule) (id : ℕ)
    → (has (add_rule d r).perms id ≡ (rule_grants id (some r) || has d.perms id))
      × (member id (add_rule d r).denied ≡ (rule_denies id (some r) || member id d.denied))
      × ((add_rule d r).prefixes ≡ d.prefixes ++ rule_prefixes (some r))
unfolding add_rule
add_rule_lem d (grants ids) id = (has-grant_all d.perms ids id, refl, sym (append-nil d.prefixes))
add_rule_lem d (denies ids) id =
    (refl, ground (arith, member-append id d.denied ids), sym (append-nil d.prefixes))
add_rule_lem d (allows prefix) id = (refl, refl, refl)
add_rule_lem d allows_all id = (refl, refl, sym (append-nil d.prefixes))

-- Each accumulator of the loop, against the rules read so far.
add_rules_lem :
    (d d' : Draft) (rules : List Bytes) (id : ℕ)
    → add_rules d rules ≡ some d'
    → (has d'.perms id ≡ (granted id rules || has d.perms id))
      × (member id d'.denied ≡ (denied id rules || member id d.denied))
      × (d'.prefixes ≡ d.prefixes ++ prefixes rules)
unfolding add_rules granted denied prefixes
add_rules_lem d d' [] id h =
    let same : d ≡ d' = some-injective d d' h in
    rw (← same) (refl, refl, sym (append-nil d.prefixes))
add_rules_lem d d' (rule ∷ rest) id h = elim (Option-cases (parse_rule rule)) [
  | inl bad ↦ absurd (ground arith)
  | inr (r, e) ↦
      let (perms, banned, spaces) = add_rules_lem (add_rule d r) d' rest id (ground arith) in
      let (p, b, s) = add_rule_lem d r id in
      rw e (
        ground (arith, perms, p),
        ground (arith, banned, b),
        spaces
            ∙ ap (λ l. l ++ prefixes rest) s
            ∙ append_assoc d.prefixes (rule_prefixes (some r)) (prefixes rest),
      )
]

parse_role-has :
    (ref : ℕ) (name : Bytes) (rules : List Bytes) (role : Role) (id : ℕ)
    → parse_role ref name rules ≡ some role
    → (has role.permissions id ≡ (granted id rules && not (denied id rules)))
      × (role.namespaces ≡ prefixes rules)
unfolding parse_role
parse_role-has ref name [] role id h = absurd (ground arith)
parse_role-has ref name (rule ∷ rules) role id h =
    elim (Option-cases
      (add_rules (record { perms = new_bitset []; denied = []; prefixes = [] }) (rule ∷ rules))) [
        | inl bad ↦ absurd (ground arith)
        | inr (d, e) ↦
            let (perms, banned, spaces) = add_rules_lem _ d (rule ∷ rules) id e in
            (
              ground (
                arith,
                perms,
                banned,
                has-revoke_all d.perms d.denied id,
                has-new_bitset [] id,
                none_listed id,
              ),
              ground (arith, spaces),
            )
      ]
  where
    none_listed : (id : ℕ) → member id [] ≡ false
    none_listed id = unfold member in refl

-- A session on a role that ParseRole built may run a command on a key exactly if some rule grants
-- the command, no rule denies it, wherever the two stand, and the key begins with the prefix of one
-- of the ~ rules, or there is none with a prefix.
pub parse_role-is_allowed :
    (ref : ℕ) (name : Bytes) (rules : List Bytes) (role : Role) (username : Bytes) (id : ℕ)
    (key : Bytes)
    → parse_role ref name rules ≡ some role
    → is_allowed (new_session username (some role)) id key ≡ (
        (granted id rules && not (denied id rules))
        && (any_prefix (prefixes rules) key || length (prefixes rules) == 0))
parse_role-is_allowed ref name rules role username id key h =
    let (bits, spaces) = parse_role-has ref name rules role id h in
    unfold is_allowed new_session allows_key in ground (arith, bits, spaces)
