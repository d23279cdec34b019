-- ===== src/Translate/Body/Sent/Tests.antt =====
-- A request for an alias with an extra body, from the configuration to the body that is sent.
use ollame.Prelude.{Bool, true, refl, none, some, codes, bytes_eq, contains}
use ollame.Config.Value.{Value, Fields, empty, field, array, nil}
use ollame.Config.Validate.{serve_profile}
use ollame.Translate.Body.{finalize, protected_key}
use ollame.Translate.Body.Sent.{Owned, Answered, resolve-Answered}
use ollame.Translate.Samples.{
  local_url, compiles_all, any_regexp, no_json, no_hash, one_model, config, accepted, at_noon, made,
  built, fast, resolved,
}

abbrev all_values : Value → Bool
all_values _ = true

abbrev messages : Fields
messages = field (codes "messages") (array nil) empty

messages-Owned : Owned messages
unfolding protected_key contains bytes_eq
messages-Owned = (refl, tt)

resolve-Answered_example :
    Answered all_values empty fast config.upstream
      (finalize all_values empty fast messages config.upstream (codes "ci") (some made.0))
resolve-Answered_example =
    resolve-Answered local_url compiles_all serve_profile any_regexp no_json no_hash config
      one_model all_values none at_noon made.0 made.1 (codes "fast") fast empty messages
      (codes "ci") accepted built resolved messages-Owned
