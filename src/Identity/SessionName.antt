-- ===== src/Identity/SessionName.antt =====
-- src/identity/session-name.ts: the names that sessions may take. Regular expressions are tests on
-- code points; NFC and `toLowerCase` are parameters.
use Prim.Native.Char.{code}
use Prim.Native.String.{count}
use text.Mathlib.Text.{◌==◌ as str_eq, starts_with}
use xbus.Base.{
  ℕ, Bool, true, false, not, ◌&&◌, ◌||◌, List, [], ◌∷◌, String, ◌==◌, leb, if◌then◌else◌,
}
use xbus.Protocol.Errors.{Result, ok, err, invalid_session_name}
use xbus.Identity.Aliases.{
  all_chars, between, is_digit, is_letter, matches, uuid_pattern, session_prefix,
}

pub record NormalizedSessionName : Type 0 where
  pub display : String
  pub normalized : String

pub record Texts : Type 0 where
  pub nfc : String → String
  pub lower : String → String

unfoldable pub normalize_session_name : Texts → String → String
normalize_session_name t raw = t.lower (t.nfc raw)

-- `PATH_LIKE_RE`: its second half, a drive letter and a colon, has a colon.
abbrev pub is_path_char : ℕ → Bool
is_path_char c = c == b':' || (c == b'/' || c == b'\\')

unfoldable pub is_path_like : String → Bool
unfolding all_chars
is_path_like s = not (all_chars (λ c. not (is_path_char c)) s)

abbrev pub is_mark : ℕ → Bool
is_mark c = c == b'.' || (c == b'_' || c == b'-')

abbrev pub is_ascii_name_char : ℕ → Bool
is_ascii_name_char c = is_letter c || (is_digit c || is_mark c)

-- `ASCII_NAME_RE`.
unfoldable pub is_ascii_name : String → Bool
unfolding all_chars
is_ascii_name s = leb 1 (count s) && all_chars is_ascii_name_char s

abbrev pub is_start_char : ℕ → Bool
is_start_char c = between b'a' b'z' c || is_digit c

abbrev pub is_name_char : ℕ → Bool
is_name_char c = is_start_char c || is_mark c

-- `SESSION_NAME_RE`.
unfoldable pub is_session_name : String → Bool
unfolding all_chars
is_session_name String.[] = false
is_session_name (String.◌∷◌ c s) =
    is_start_char (code c) && (all_chars is_name_char s && (leb 1 (count s) && leb (count s) 47))

abbrev pub is_lower_hex : ℕ → Bool
is_lower_hex c = is_digit c || between b'a' b'f' c

-- `UUID_RE`, whose letters are small here.
unfoldable pub is_lower_uuid : String → Bool
unfolding matches uuid_pattern
is_lower_uuid s = matches (uuid_pattern is_lower_hex) s

unfoldable pub is_one_of : List String → String → Bool
is_one_of [] s = false
is_one_of (t ∷ ts) s = str_eq t s || is_one_of ts s

abbrev pub reserved_session_names : List String
reserved_session_names =
    "xbus" ∷ "broker" ∷ "admin" ∷ "system" ∷ "root" ∷ "all" ∷ "broadcast" ∷ "self" ∷ "none"
    ∷ "operator" ∷ "local-operator" ∷ []

abbrev pub generic_session_names : List String
generic_session_names =
    "session" ∷ "agent" ∷ "claude" ∷ "codex" ∷ "hermes" ∷ "default" ∷ "test" ∷ "temp"
    ∷ "new-session" ∷ "new" ∷ "untitled" ∷ "example" ∷ "sample" ∷ "foo" ∷ "bar" ∷ []

abbrev pub is_all_numeric : String → Bool
is_all_numeric s = leb 1 (count s) && all_chars is_digit s

-- The tests on the form that was made small, in the order of the code.
unfoldable pub is_refused_name : String → Bool
unfolding is_session_name is_one_of is_lower_uuid
is_refused_name s =
    not (is_session_name s)
    || (starts_with s session_prefix
        || (is_one_of reserved_session_names s
            || (is_one_of generic_session_names s || (is_all_numeric s || is_lower_uuid s))))

-- Every violation throws the same error.
unfoldable pub validate_session_name : Texts → String → Result NormalizedSessionName
unfolding is_path_like is_ascii_name is_refused_name
validate_session_name t raw =
    let nfc = t.nfc raw in
    if str_eq raw "" || (is_path_like nfc || not (is_ascii_name nfc))
    then err invalid_session_name
    else (if not (leb 2 (count nfc) && leb (count nfc) 48) || is_refused_name (t.lower nfc)
        then err invalid_session_name
        else ok (record { display = raw; normalized = t.lower nfc }))

abbrev is_ok : Result NormalizedSessionName → Bool
is_ok (ok n) = true
is_ok (err e) = false

unfoldable pub is_valid_session_name : Texts → String → Bool
unfolding validate_session_name
is_valid_session_name t raw = is_ok (validate_session_name t raw)
