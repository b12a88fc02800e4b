-- ===== src/Identity/Aliases.antt =====
-- src/identity/aliases.ts: the aliases that users may take, the automatic ones, and the forms of a
-- recipient. Regular expressions are tests on code points; `toLowerCase` and `trim` are parameters.
use Prim.Native.Char.{code}
use Prim.Native.String.{count, ◌++◌}
use text.Mathlib.Text.{◌==◌ as str_eq, starts_with}
use xbus.Base.{
  ℕ, zero, suc, Bool, true, false, not, ◌&&◌, ◌||◌, List, [], ◌∷◌, Option, none, some, String, ◌==◌,
  leb, if◌then◌else◌,
}
use xbus.Protocol.Errors.{Result, ok, err, invalid_alias, unknown_recipient}

unfoldable pub all_chars : (ℕ → Bool) → String → Bool
all_chars p String.[] = true
all_chars p (String.◌∷◌ c s) = p (code c) && all_chars p s

abbrev pub between : ℕ → ℕ → ℕ → Bool
between lo hi c = leb lo c && leb c hi

abbrev pub is_digit : ℕ → Bool
is_digit c = between b'0' b'9' c

abbrev pub is_letter : ℕ → Bool
is_letter c = between b'A' b'Z' c || between b'a' b'z' c

abbrev pub is_alias_char : ℕ → Bool
is_alias_char c = is_letter c || (is_digit c || (c == b'_' || c == b'-'))

-- `ALIAS_RE`.
unfoldable pub is_alias : String → Bool
unfolding all_chars
is_alias s = all_chars is_alias_char s && (leb 1 (count s) && leb (count s) 128)

abbrev pub session_prefix : String
session_prefix = "session-"

unfoldable pub is_reserved : String → Bool
is_reserved s =
    str_eq s "all"
    || (str_eq s "broadcast"
        || (str_eq s "self"
            || (str_eq s "main"
                || (str_eq s "system" || (str_eq s "everyone" || str_eq s "none")))))

pub record NormalizedAlias : Type 0 where
  pub display : String
  pub ci : String

-- The checks behind the charset's, on the lowercased text.
abbrev pub unreserved : String → String → Result NormalizedAlias
unreserved raw ci =
    if starts_with ci session_prefix
    then err invalid_alias
    else (if is_reserved ci then err invalid_alias else ok (record { display = raw; ci = ci }))

-- An empty text and one that is too long fail the charset's test too, with the same error.
unfoldable pub validate_user_alias : (String → String) → String → Result NormalizedAlias
unfolding is_alias is_reserved
validate_user_alias lower raw =
    if is_alias raw then unreserved raw (lower raw) else err invalid_alias

unfoldable pub keep_alphanumeric : String → String
keep_alphanumeric String.[] = ""
keep_alphanumeric (String.◌∷◌ c s) =
    let rest = keep_alphanumeric s in
    if is_letter (code c) || is_digit (code c) then String.◌∷◌ c rest else rest

unfoldable pub take_chars : ℕ → String → String
take_chars zero s = ""
take_chars (suc n) String.[] = ""
take_chars (suc n) (String.◌∷◌ c s) = String.◌∷◌ c (take_chars n s)

abbrev pub or_unknown : String → String
or_unknown String.[] = "unknown0"
or_unknown (String.◌∷◌ c s) = String.◌∷◌ c s

unfoldable pub automatic_alias : (String → String) → String → NormalizedAlias
unfolding keep_alphanumeric take_chars
automatic_alias lower session_id =
    let display =
      session_prefix ++ or_unknown (lower (take_chars 8 (keep_alphanumeric session_id))) in
    record { display = display; ci = lower display }

pub data RecipientRef : Type 0 where
  session : String → RecipientRef
  qualified : String → String → RecipientRef
  alias : String → RecipientRef

abbrev pub is_hex : ℕ → Bool
is_hex c = is_digit c || (between b'a' b'f' c || between b'A' b'F' c)

unfoldable pub matches : List (ℕ → Bool) → String → Bool
matches [] String.[] = true
matches [] (String.◌∷◌ c s) = false
matches (p ∷ ps) String.[] = false
matches (p ∷ ps) (String.◌∷◌ c s) = p (code c) && matches ps s

abbrev pub is_dash : ℕ → Bool
is_dash c = c == b'-'

-- Groups of 8, 4, 4, 4 and 12 characters, with dashes between them.
unfoldable pub groups_of : (ℕ → Bool) → ℕ → List (ℕ → Bool) → List (ℕ → Bool)
groups_of p zero rest = rest
groups_of p (suc n) rest = p ∷ groups_of p n rest

unfoldable pub uuid_pattern : (ℕ → Bool) → List (ℕ → Bool)
unfolding groups_of
uuid_pattern p = groups_of p 8 (
    is_dash
    ∷ groups_of p 4
        (is_dash ∷ groups_of p 4 (is_dash ∷ groups_of p 4 (is_dash ∷ groups_of p 12 []))))

-- `UUID_RE`.
unfoldable pub is_uuid : String → Bool
unfolding matches uuid_pattern
is_uuid s = matches (uuid_pattern is_hex) s

-- The text in front of the first slash and the text behind it, none where there is no slash.

unfoldable pub split_slash : String → Option (String × String)
split_slash String.[] = none
split_slash (String.◌∷◌ c s) =
    let rest = split_slash s in
    if code c == b'/'
    then some ("", s)
    else elim rest [ none ↦ none | some parts ↦ some (String.◌∷◌ c parts.0, parts.1) ]

abbrev has_slash : String → Bool
has_slash s = elim (split_slash s) [ none ↦ false | some parts ↦ true ]

abbrev pub parse_parts : String → Option (String × String) → Result RecipientRef
parse_parts r none = if is_alias r then ok (alias r) else err invalid_alias
parse_parts r (some parts) =
    if not (has_slash parts.1) && (is_alias parts.0 && is_alias parts.1)
    then ok (qualified parts.0 parts.1)
    else err invalid_alias

unfoldable pub parse_recipient : (String → String) → String → Result RecipientRef
unfolding is_alias is_uuid split_slash
parse_recipient trim raw =
    let r = trim raw in
    if str_eq r ""
    then err unknown_recipient
    else (if is_uuid r then ok (session r) else parse_parts r (split_slash r))
