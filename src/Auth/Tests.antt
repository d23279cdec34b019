-- ===== src/Auth/Tests.antt =====
-- Runs of the token set, and its theorems at concrete input. The digest of a text is the text.
use ollame.Prelude.{
  ok, err, contains, String, ◌≡◌, ◌↔◌, refl, Bytes, codes, List, [], ◌∷◌, none, some, true, false,
  lookup, cut, bytes_eq, insert, if◌then◌else◌,
}
use ollame.Config.{valid_token_name}
use ollame.Prelude.Base64.{decode}
use ollame.Auth.{
  unauthorized, invalid_source, Entry, Source, TokenSet, Header, AuthConfig, new_set, authenticate,
  authorize,
}
use ollame.Auth.Sets.{in_force, digest_of, new_set-in_force, authenticate-in_force}
use ollame.Auth.Requests.{Admitted, authorize_no_fallback, authorize-Admitted}
use ollame.Auth.State.{SourceState, State, update}
use ollame.Auth.State.Grace.{
  failing, any_expired, failing_entries, update-authenticate, effective_of,
}

abbrev entry : String → String → Entry
entry n d = record { name = codes n; digest = codes d }

abbrev sources : List Source
sources =
    record {
      id = codes "inline";
      entries = entry "app" "s1" ∷ entry "bot" "s2" ∷ [];
      failure = none;
    }
    ∷ record { id = codes "file"; entries = entry "app" "s3" ∷ []; failure = none }
    ∷ []

abbrev set : TokenSet
set = (codes "s3", codes "app") ∷ (codes "s2", codes "bot") ∷ []

abbrev id_hash : Bytes → Bytes
id_hash s = s

built : new_set sources ≡ ok (set, codes "token app overridden by file" ∷ [])
unfolding new_set valid_token_name lookup insert bytes_eq contains
built = refl

new_set-in_force_example :
    (lookup (codes "s3") set ≡ some (codes "app"))
    ↔ (digest_of (in_force (codes "app") sources none) ≡ some (codes "s3"))
new_set-in_force_example = new_set-in_force sources set _ built (codes "s3") (codes "app")

authenticate-in_force_example :
    (authenticate id_hash set (codes "s1") ≡ ok (codes "app"))
    ↔ (digest_of (in_force (codes "app") sources none) ≡ some (codes "s1"))
authenticate-in_force_example =
    authenticate-in_force id_hash sources set _ built (codes "s1") (codes "app")

abbrev cfg : AuthConfig
cfg = record { mode = codes "required"; accept_basic = true; accept_x_api_key = true }

abbrev bearer : Header
bearer = (codes "Authorization", codes "Bearer s2" ∷ []) ∷ []

-- The user "bot" with the password "s2".
abbrev basic : Header
basic = (codes "Authorization", codes "basic Ym90OnMy" ∷ []) ∷ []

abbrev garbled : Header
garbled = (codes "Authorization", codes "Bearer" ∷ []) ∷ []

abbrev garbled_with_key : Header
garbled_with_key =
    (codes "Authorization", codes "Bearer" ∷ []) ∷ (codes "X-Api-Key", codes "s2" ∷ []) ∷ []

requests :
    (authorize id_hash set bearer cfg ≡ ok (codes "bot"))
    × (authorize id_hash set basic cfg ≡ ok (codes "bot"))
    × (authorize id_hash set garbled_with_key cfg ≡ err unauthorized)
unfolding authorize authenticate lookup cut bytes_eq decode
requests = (refl, refl, refl)

authorize_no_fallback_example :
    authorize id_hash set garbled cfg ≡ authorize id_hash set garbled_with_key cfg
unfolding lookup bytes_eq
authorize_no_fallback_example =
    authorize_no_fallback id_hash set cfg garbled garbled_with_key (codes "Bearer") [] refl refl

authorize-Admitted_example : Admitted id_hash set bearer cfg (codes "bot")
authorize-Admitted_example = authorize-Admitted id_hash set bearer cfg (codes "bot") requests.0

abbrev good : SourceState
good = record { entries = entry "app" "s3" ∷ []; failed_at = 0; failed = false }

failing_entries_example :
    (failing 10 (5 ∷ 14 ∷ 15 ∷ 6 ∷ []) good).entries
    ≡ (if any_expired 5 10 (5 ∷ 14 ∷ 15 ∷ 6 ∷ []) then [] else good.entries)
failing_entries_example = failing_entries 10 5 (14 ∷ 15 ∷ 6 ∷ []) good refl

abbrev state : State
state = (codes "file", good) ∷ []

abbrev results : List Source
results =
    record { id = codes "inline"; entries = entry "bot" "s2" ∷ []; failure = none }
    ∷ record { id = codes "file"; entries = []; failure = some invalid_source }
    ∷ []

updated : (update state 7 10 results).error ≡ none
unfolding update new_set valid_token_name lookup insert bytes_eq contains
updated = refl

update-authenticate_example :
    (authenticate id_hash (update state 7 10 results).set (codes "s3") ≡ ok (codes "app")) ↔ (
      digest_of (in_force (codes "app") (effective_of 7 10 state results) none) ≡ some (codes "s3"))
update-authenticate_example =
    update-authenticate id_hash state 7 10 results updated (codes "s3") (codes "app")
