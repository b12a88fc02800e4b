-- ===== src/Broker/Recipients.antt =====
-- `resolveRecipient` and `aliasForSession` of src/broker/store.ts. `Names` holds what the texts and
-- the session ids behind the numbers give: `toLowerCase`, `trim`, the session of an id, and the
-- automatic alias `'session-' || substr(id, 1, 8)`.
use text.Mathlib.Text.{◌==◌ as str_eq}
use xbus.Base.{
  ℕ, Bool, true, false, not, ◌&&◌, List, [], ◌∷◌, ◌++◌, map, Option, none, some, String, ◌==◌,
  if◌then◌else◌, first_where, select_where,
}
use xbus.Protocol.Errors.{Result, ok, err, unknown_recipient, ambiguous_recipient}
use xbus.Identity.Aliases.{RecipientRef, parse_recipient}
use xbus.Broker.Db.{Db, Session, NameState, Alias}
use xbus.Broker.Delivery.Sessions.{session_row, is_unset}

pub record Names : Type 0 where
  pub lower : String → String
  pub trim : String → String
  pub session_of : String → ℕ
  pub automatic_ci : ℕ → String

-- A session that a recipient names, with the alias that it was found under.
pub record Target : Type 0 where
  pub session_id : ℕ
  pub alias : String

abbrev is_name_active : NameState → Bool
is_name_active NameState.active = true
is_name_active _ = false

abbrev pub text_is : Option String → String → Bool
text_is none t = false
text_is (some s) t = str_eq s t

-- An active session has a name.
abbrev name_or_empty : Option String → String
name_or_empty none = ""
name_or_empty (some s) = s

unfoldable pub targets_by_name : String → List Session → List Target
unfolding select_where
targets_by_name want ss =
    map
      (λ (s : Session). record { session_id = s.session_id; alias = name_or_empty s.session_name })
      (select_where
        (λ (s : Session).
          text_is s.normalized_session_name want
          && (is_name_active s.session_name_state && is_unset s.expired_at))
        ss)

abbrev alias_target : Alias → Target
alias_target a = record { session_id = a.session_id; alias = a.alias }

unfoldable pub targets_by_alias : String → List Alias → List Target
unfolding select_where
targets_by_alias want as' =
    map alias_target (select_where (λ (a : Alias). str_eq a.alias_ci want && a.is_active) as')

abbrev pub in_project : Option Session → String → Bool
in_project none p = false
in_project (some s) p = text_is s.project_alias p

unfoldable pub targets_in_project : String → String → Db → List Target
unfolding select_where session_row
targets_in_project project want db = map alias_target (
    select_where
      (λ (a : Alias).
        str_eq a.alias_ci want && (a.is_active && in_project (session_row a.session_id db) project))
      db.aliases)

-- `merged.set`: a later row of the same session takes the place of the earlier one.
unfoldable pub put_target : Target → List Target → List Target
put_target t [] = t ∷ []
put_target t (u ∷ us) = if u.session_id == t.session_id then t ∷ us else u ∷ put_target t us

unfoldable pub merged_onto : List Target → List Target → List Target
unfolding put_target
merged_onto acc [] = acc
merged_onto acc (t ∷ ts) = merged_onto (put_target t acc) ts

abbrev pub only_target : List Target → Result Target
only_target [] = err unknown_recipient
only_target (t ∷ []) = ok t
only_target (t ∷ u ∷ ts) = err ambiguous_recipient

abbrev pub session_target : Option Session → Result Target
session_target none = err unknown_recipient
session_target (some s) = ok (record { session_id = s.session_id; alias = s.automatic_alias })

abbrev pub resolve_ref : Names → Db → Result RecipientRef → Result Target
resolve_ref n db (err e) = err e
resolve_ref n db (ok (RecipientRef.session id)) = session_target (session_row (n.session_of id) db)
resolve_ref n db (ok (RecipientRef.qualified project name)) =
    only_target (targets_in_project project (n.lower name) db)
resolve_ref n db (ok (RecipientRef.alias name)) = only_target (
    merged_onto []
      (targets_by_name (n.lower name) db.sessions ++ targets_by_alias (n.lower name) db.aliases))

unfoldable pub resolve_recipient : Names → String → Db → Result Target
unfolding targets_by_name targets_by_alias targets_in_project merged_onto session_row
    parse_recipient
resolve_recipient n raw db = resolve_ref n db (parse_recipient n.trim raw)

-- The session's global aliases, the automatic one last.
abbrev global_alias_of : ℕ → Alias → Bool
global_alias_of sid a = a.session_id == sid && (a.is_global && a.is_active)

abbrev pub first_alias : Option Alias → Option Alias → Option Session → String
first_alias (some a) o s = a.alias
first_alias none (some a) s = a.alias
first_alias none none (some s) = s.automatic_alias
first_alias none none none = "unknown"

unfoldable pub alias_for_session : Names → ℕ → Db → String
unfolding first_where session_row
alias_for_session n sid db =
    first_alias
      (first_where
        (λ (a : Alias). global_alias_of sid a && not (str_eq a.alias_ci (n.automatic_ci sid)))
        db.aliases)
      (first_where (global_alias_of sid) db.aliases) (session_row sid db)
