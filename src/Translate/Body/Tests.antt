-- ===== src/Translate/Body/Tests.antt =====
-- Runs of `Finalize`, and its theorem at a concrete input.
use ollame.Prelude.{
  Bool, true, ◌≡◌, refl, [], ◌∷◌, some, Option, codes, bytes_eq, contains, starts_with, ok, err,
}
use ollame.Config.Types.Defaults.{default_upstream}
use ollame.Config.Value.{
  Value, Fields, empty, field, text, number, object, array, cons, nil, get, put,
}
use ollame.Config.Load.{no_behavior}
use ollame.Catalog.{Catalog, Entry, no_entry}
use ollame.Translate.Body.{finalize, target_not_found, protected_key}
use ollame.Translate.Body.Keys.{Proper}
use ollame.Translate.Body.Sealed.{IsSealed, finalize-IsSealed}

abbrev gpt_only : Option Catalog
gpt_only = some (record {
  by_name = [];
  raw = [];
  targets = codes "gpt" ∷ [];
  default_tag = codes "latest";
  first_seen = [];
})

abbrev gpt_entry : Entry
gpt_entry = record no_entry {
  target = codes "gpt";
  behavior = record no_behavior {
    extra_body = some (field (codes "top_k") (number (codes "5")) empty);
    drop_params = some (codes "seed" ∷ []);
  };
}

abbrev options : Fields
options = field (codes "seed") (number (codes "1")) (
    field (codes "api_base") (text (codes "http://evil"))
      (field (codes "model") (text (codes "other")) empty))

abbrev chat_fields : Fields
chat_fields = field (codes "n") (number (codes "1")) (field (codes "messages") (array nil) empty)

abbrev sent_body : Fields
sent_body = field (codes "top_k") (number (codes "5")) (
    field (codes "n") (number (codes "1")) (
      field (codes "messages") (array nil) (
        field (codes "model") (text (codes "gpt")) (
          field (codes "user") (text (codes "ollame:ci")) (
            field (codes "metadata")
              (object (
                field (codes "tags")
                  (array (cons (text (codes "ollame")) (cons (text (codes "token:ci")) nil)))
                  empty))
              empty)))))

abbrev all_values : Value → Bool
all_values _ = true

finalized :
    finalize all_values options gpt_entry chat_fields default_upstream (codes "ci") gpt_only
    ≡ ok sent_body
unfolding finalize protected_key contains bytes_eq starts_with put
finalized = refl

chat_fields-Proper : Proper chat_fields
unfolding get bytes_eq
chat_fields-Proper = (refl, (refl, tt))

finalize-IsSealed_example :
    IsSealed options gpt_entry chat_fields default_upstream (codes "ci") gpt_only sent_body
finalize-IsSealed_example =
    finalize-IsSealed all_values options gpt_entry chat_fields default_upstream (codes "ci")
      gpt_only sent_body chat_fields-Proper finalized

other_target :
    finalize all_values options
      (record gpt_entry { target = codes "opus" })
      chat_fields
      default_upstream
      (codes "ci")
      gpt_only
    ≡ err target_not_found
unfolding finalize contains bytes_eq
other_target = refl
