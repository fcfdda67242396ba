-- ===== src/Rbac/Policy.antt =====
-- internal/rbac/policy.go (PolicyStore), user.go and the part of config.go that compiles a match
-- pattern. A nil policy is `none`. The hash of a password is bytes; an empty one is nil.
use tellstone.Prelude.{
  ℕ, Bool, false, not, ◌&&◌, ◌||◌, ◌+◌, Option, none, some, List, [], ◌∷◌, Bytes, bytes_eq,
  has_prefix, codes, length, drop, map, lower, ◌==◌, if◌then◌else◌,
}
use mathlib.Core.List.{reverse}
use tellstone.Prelude.Table.{Table, lookup}
use tellstone.Rbac.Role.{Role, Session, new_session, trim_star}

pub record User : Type 0 where
  pub role : Bytes
  pub password_hash : Bytes

pub record OauthRule : Type 0 where
  pub claim : Bytes
  pub exact : Bytes
  pub prefix : Bytes
  pub suffix : Bytes
  pub role : Role

pub record Policy : Type 0 where
  pub roles : Table Role
  pub users : Table User
  pub default : Option Role
  pub oauth_rules : List OauthRule

-- strings.HasSuffix
unfoldable pub has_suffix : Bytes → Bytes → Bool
unfolding has_prefix
has_suffix s suffix = has_prefix (reverse s) (reverse suffix)

-- strings.Count(s, "*")
unfoldable pub count_star : Bytes → ℕ
count_star [] = 0
count_star (c ∷ s) = (if c == b'*' then 1 else 0) + count_star s

-- parseMatch: exact, prefix and suffix, or an error
unfoldable pub parse_match : Bytes → Option (Bytes × Bytes × Bytes)
unfolding count_star has_prefix has_suffix trim_star
parse_match text =
    if count_star text == 0
    then some (text, [], [])
    else if has_prefix text (codes "*")
    then some ([], [], drop 1 text)
    else if has_suffix text (codes "*")
    then some ([], trim_star text, [])
    else none

abbrev pub is_empty : Bytes → Bool
is_empty s = length s == 0

-- The body of the loop of oauthRule.matches.
unfoldable pub matches_value : OauthRule → Bytes → Bool
unfolding bytes_eq has_prefix has_suffix
matches_value r v =
    (not (is_empty r.exact) && bytes_eq v r.exact)
    || (not (is_empty r.prefix) && has_prefix v r.prefix)
    || (not (is_empty r.suffix) && has_suffix v r.suffix)
    || (is_empty r.exact && is_empty r.prefix && is_empty r.suffix)

unfoldable pub matches : OauthRule → List Bytes → Bool
unfolding matches_value
matches r [] = false
matches r (v ∷ values) = matches_value r v || matches r values

abbrev pub Claims : Type 0
Claims = Table (List Bytes)

-- RoleFor
unfoldable pub assigned : Policy → Bytes → Option Role
assigned p username = elim (lookup username p.users) [
  | none ↦ none
  | some u ↦ lookup u.role p.roles
]

unfoldable pub role_for : Option Policy → Bytes → Option Role
unfolding assigned
role_for none username = none
role_for (some p) username = elim (assigned p username) [ none ↦ p.default | some r ↦ some r ]

-- UserFor
unfoldable pub user_for : Option Policy → Bytes → Option User
user_for none username = none
user_for (some p) username = lookup username p.users

unfoldable pub rule_applies : Claims → OauthRule → Bool
unfolding matches
rule_applies claims r = elim (lookup r.claim claims) [
  | none ↦ false
  | some values ↦ matches r values
]

unfoldable pub first_rule : Claims → List OauthRule → Option Role
first_rule claims [] = none
first_rule claims (r ∷ rest) = if rule_applies claims r then some r.role else first_rule claims rest

-- RoleForClaims
unfoldable pub role_for_claims : Option Policy → Claims → Option Role
unfolding first_rule
role_for_claims none claims = none
role_for_claims (some p) claims = first_rule claims p.oauth_rules

-- NoPassDefault
unfoldable pub no_pass_default : Option Policy → Bool
no_pass_default none = false
no_pass_default (some p) = elim (lookup (codes "default") p.users) [
  | none ↦ false
  | some u ↦ length u.password_hash == 0
]

-- The subject of ResolveOAuthToken: the first value of "sub", unless it is missing or empty.
unfoldable pub subject_of : Claims → Bytes
subject_of claims = elim (lookup (codes "sub") claims) [
  | none ↦ codes "default"
  | some [] ↦ codes "default"
  | some (s ∷ rest) ↦ if is_empty s then codes "default" else s
]

-- ResolveOAuthToken on the active policy; `verified` is what the provider's check returns, with
-- `none` for an error.
unfoldable pub resolve_oauth_token : Option Policy → Option Claims → Option (Session × Bytes)
unfolding subject_of
resolve_oauth_token p none = none
resolve_oauth_token p (some claims) = elim (role_for_claims p claims) [
  | none ↦ none
  | some role ↦ some (new_session (subject_of claims) (some role), subject_of claims)
]

-- strings.EqualFold on ASCII text
abbrev pub equal_fold : Bytes → Bytes → Bool
equal_fold a b = bytes_eq (map lower a) (map lower b)

-- opt[1:] where len(opt) > 1 && opt[0] == '>'
unfoldable pub new_password : Bytes → Option Bytes
new_password [] = none
new_password (c ∷ []) = none
new_password (c ∷ d ∷ text) = if c == b'>' then some (d ∷ text) else none

-- PasswordFromOpts; `hash` is bcrypt.GenerateFromPassword, `none` an error, and an empty hash nil.
unfoldable pub password_from : (Bytes → Option Bytes) → Bytes → List Bytes → Option Bytes
unfolding bytes_eq new_password
password_from hash current [] = some current
password_from hash current (opt ∷ opts) =
    elim (if equal_fold opt (codes "nopass")
      then some []
      else elim (new_password opt) [ none ↦ none | some text ↦ hash text ]) [
        | none ↦ none
        | some h ↦ password_from hash h opts
      ]

unfoldable pub password_from_opts : (Bytes → Option Bytes) → List Bytes → Option Bytes
unfolding password_from
password_from_opts hash opts = password_from hash [] opts
