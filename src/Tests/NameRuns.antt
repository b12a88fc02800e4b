-- ===== src/Tests/NameRuns.antt =====
-- Runs of src/identity/session-name.ts, src/broker/liveness-proof.ts, singleton.ts
-- and ensure.ts.
use xbus.Base.{◌≤◌, ◌*◌, ltb, arith, ◌≡◌, ◌↔◌, refl, true, false, none, some}
use xbus.Protocol.Errors.{ok, err, invalid_alias}
use xbus.Identity.Aliases.{all_chars, parse_recipient}
use xbus.Identity.SessionName.{Texts, NormalizedSessionName, validate_session_name}
use xbus.Identity.Suggestion.{suggest_session_name}
use xbus.Identity.Routable.{parse_recipient-validate_session_name}
use xbus.Broker.Ensure.{
  EnsureBrokerDeps, EnsureBrokerResult, Calls, agrees, running, ensure_broker,
  ensure_broker-check_singleton,
}
use xbus.Broker.Liveness.{Probes, MayTakeOver, check_singleton}

abbrev plain : Texts
plain = record { nfc = λ s. s; lower = λ s. s }

abbrev dotted : NormalizedSessionName
dotted = record { display = "api.v2"; normalized = "api.v2" }

dotted_accepted : validate_session_name plain "api.v2" ≡ ok dotted
unfolding validate_session_name
dotted_accepted = refl

parse_recipient-validate_session_name_example :
    parse_recipient (λ s. s) "api.v2" ≡ err invalid_alias
unfolding all_chars
parse_recipient-validate_session_name_example =
    parse_recipient-validate_session_name plain (λ s. s) "api.v2" dotted dotted_accepted refl

-- A process that lives, whose creation time cannot be read and which does not answer the handshake.
abbrev unknown : Probes
unknown = record {
  pid_alive = true;
  creation_time_ms = none;
  handshake_ok = none;
  tolerance_ms = 2000;
}

abbrev deps : EnsureBrokerDeps
deps = record {
  probe = λ i. ltb 3 i;
  now = λ i. i * 100;
  spawns = true;
  compatibility = agrees;
  handshake_timeout_ms = 1000;
  max_backoff_ms = 200;
}

abbrev unknown_later : Probes
unknown_later = record {
  pid_alive = true;
  creation_time_ms = some 9000;
  handshake_ok = none;
  tolerance_ms = 1000;
}

-- The endpoint answers from the fourth probe on, to a broker that was started over a stale state file.
launched :
    ensure_broker deps (some (check_singleton false (some (some 5)) unknown_later))
    ≡ some (running true, record { probed = 6; reads = 4; slept = 175; spawned = 1 })
unfolding ensure_broker check_singleton
launched = refl

ensure_broker-check_singleton_example :
    (r : EnsureBrokerResult × Calls) × ((ensure_broker deps
          (some (check_singleton false (some none) unknown))
        ≡ some r)
      × ((r.1.spawned ≤ 1)
          × ((r.1.spawned ≡ 1)
              ↔ ((ltb 3 0 ≡ false) × ((false ≡ false) × MayTakeOver (some none) unknown)))))
ensure_broker-check_singleton_example =
    ensure_broker-check_singleton deps false (some none) unknown (λ i. ground arith)

-- A reserved name is passed over, and a label is made into a name.
suggested :
    suggest_session_name plain (record {
      saved_name = some "admin";
      git_repo = some "";
      dir_name = some "../my  project (v2)/";
      agent_type = some "claude";
      project_id = none;
    })
    ≡ some "my-project-v2"
unfolding suggest_session_name
suggested = refl
