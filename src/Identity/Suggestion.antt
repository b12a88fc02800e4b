-- ===== src/Identity/Suggestion.antt =====
-- src/identity/session-name.ts: the name that is suggested for a session, from the labels around it.
use Prim.Native.Char.{code}
use Prim.Native.String.{count, ◌++◌}
use text.Mathlib.Text.{◌==◌ as str_eq}
use xbus.Base.{
  Bool, true, false, not, ◌&&◌, List, [], ◌∷◌, Option, none, some, String, leb, if◌then◌else◌,
}
use xbus.Identity.Aliases.{take_chars}
use xbus.Identity.SessionName.{
  Texts, is_mark, is_name_char, is_start_char, is_session_name, is_valid_session_name,
}

-- Every run of other characters becomes one dash; the flag says whether a run goes on.
unfoldable replace_unsafe : Bool → String → String
replace_unsafe in_run String.[] = ""
replace_unsafe in_run (String.◌∷◌ c s) =
    let kept = replace_unsafe false s in
    let skipped = replace_unsafe true s in
    if is_name_char (code c)
    then String.◌∷◌ c kept
    else (if in_run then skipped else "-" ++ skipped)

unfoldable drop_to_start : String → String
drop_to_start String.[] = ""
drop_to_start (String.◌∷◌ c s) =
    let rest = drop_to_start s in if is_start_char (code c) then String.◌∷◌ c s else rest

unfoldable trim_marks : String → String
trim_marks String.[] = ""
trim_marks (String.◌∷◌ c s) =
    let rest = trim_marks s in if is_mark (code c) && str_eq rest "" then "" else String.◌∷◌ c rest

unfoldable shorten : String → String
unfolding take_chars trim_marks
shorten s = if leb (count s) 48 then s else trim_marks (take_chars 48 s)

abbrev session_name_or_none : String → Option String
session_name_or_none s = if leb 2 (count s) && is_session_name s then some s else none

unfoldable pub sanitize_to_session_name : Texts → String → Option String
unfolding replace_unsafe drop_to_start trim_marks shorten
sanitize_to_session_name t raw =
    session_name_or_none
      (shorten (trim_marks (drop_to_start (replace_unsafe false (t.lower (t.nfc raw))))))

pub record NameSuggestionInputs : Type 0 where
  pub saved_name : Option String
  pub git_repo : Option String
  pub dir_name : Option String
  pub agent_type : Option String
  pub project_id : Option String

-- Where one of the two is missing or empty there is none.
abbrev fallback : Option String → Option String → Option String
fallback none project = none
fallback (some agent) none = none
fallback (some agent) (some project) =
    if not (str_eq agent "") && not (str_eq project "")
    then some (agent ++ ("-" ++ project))
    else none

abbrev usable : Texts → Option String → Option String
unfolding is_valid_session_name
usable t none = none
usable t (some s) = if is_valid_session_name t s then some s else none

abbrev candidate : Texts → Option String → Option String
unfolding is_valid_session_name sanitize_to_session_name
candidate t none = none
candidate t (some c) = if str_eq c "" then none else usable t (sanitize_to_session_name t c)

unfoldable first_usable : Texts → List (Option String) → Option String
unfolding is_valid_session_name sanitize_to_session_name
first_usable t [] = none
first_usable t (c ∷ cs) =
    let rest = first_usable t cs in elim (candidate t c) [ none ↦ rest | some s ↦ some s ]

unfoldable pub suggest_session_name : Texts → NameSuggestionInputs → Option String
unfolding first_usable
suggest_session_name t inp =
    first_usable t
      (inp.saved_name ∷ inp.git_repo ∷ inp.dir_name ∷ fallback inp.agent_type inp.project_id ∷ [])
