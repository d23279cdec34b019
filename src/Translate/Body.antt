-- ===== src/Translate/Body.antt =====
-- internal/translate/body.go: `Finalize`, with `protectedKey`, `routingKey`, `cloneFields` and
-- `mergeJSON`. A json.RawMessage is the value that it encodes, so that the encodings and decodings in
-- between are left out; the result is the map that is encoded at the end.
pub mod Keys
pub mod Merged
pub mod Tags
pub mod Sealed
pub mod Sent
mod Tests
use ollame.Prelude.{
  Bool, true, false, not, ◌&&◌, ◌||◌, List, [], ◌∷◌, ◌++◌, Option, none, some, Bytes, codes,
  bytes_eq, contains, starts_with, Result, ok, err, ◌>>=◌, if◌then◌else◌,
}
use ollame.Config.Types.{Upstream, Behavior}
use ollame.Config.Value.{
  Value, Values, Fields, empty, field, nil, cons, text, number, object, array, get, put, remove,
  without, as_map, merge_value,
}
use ollame.Catalog.{Catalog, Entry, allows_target}

pub data FinalizeError : Type 0 where
  target_not_found invalid_extra unexpected_field bad_metadata bad_tags : FinalizeError
  protected_extra : Bytes → FinalizeError

-- `protectedKey`
unfoldable pub protected_key : Bytes → Bool
unfolding contains
protected_key key =
    contains
      (codes "model"
        ∷ codes "messages"
        ∷ codes "prompt"
        ∷ codes "input"
        ∷ codes "stream"
        ∷ codes "stream_options"
        ∷ codes "n"
        ∷ codes "user"
        ∷ [])
      key

-- `routingKey`
unfoldable pub routing_key : Bytes → Bool
unfolding contains starts_with
routing_key key =
    starts_with (codes "litellm_") key
    || contains
        (codes "fallbacks"
          ∷ codes "context_window_fallback_dict"
          ∷ codes "api_base"
          ∷ codes "base_url"
          ∷ codes "api_key"
          ∷ codes "mock_response"
          ∷ [])
        key

-- `mergeJSON`: objects are merged, any other value replaces the one before it.
unfoldable pub merge_json : Option Value → Value → Value
unfolding merge_value
merge_json base update = merge_value (as_map base) update

-- The loop over the extra body. `encodes` tells of which values `json.Marshal` gives no error.
unfoldable pub add_extra : (Value → Bool) → Fields → Fields → Result FinalizeError Fields
unfolding protected_key merge_json get put
add_extra encodes body empty = ok body
add_extra encodes body (field key value extra) =
    if protected_key key
    then err (protected_extra key)
    else if not (encodes value)
    then err invalid_extra
    else add_extra encodes (put key (merge_json (get key body) value) body) extra

abbrev pub extra_of : Option Fields → Fields
extra_of none = empty
extra_of (some m) = m

unfoldable pub drop_params : List Bytes → Fields → Fields
unfolding remove
drop_params [] body = body
drop_params (key ∷ keys) body = drop_params keys (remove key body)

abbrev pub params_of : Option (List Bytes) → List Bytes
params_of none = []
params_of (some keys) = keys

-- The test of the loop that deletes what only the program sets.
unfoldable pub is_owned : Bytes → Bool
unfolding protected_key routing_key
is_owned key = protected_key key || routing_key key

-- The loop over the protected fields.
unfoldable pub restore : Fields → Fields → Result FinalizeError Fields
unfolding protected_key put
restore body empty = ok body
restore body (field key value protected) =
    if protected_key key then restore (put key value body) protected else err unexpected_field

abbrev pub set_count : Option Value → Fields → Fields
set_count none body = body
set_count (some _) body = put (codes "n") (number (codes "1")) body

pub set_user : Upstream → Bytes → Fields → Fields
unfolding put remove
set_user cfg token body =
    if cfg.forward_client_as_user
    then put (codes "user") (text (cfg.user_prefix ++ token)) body
    else remove (codes "user") body

-- `json.Unmarshal` into a map that must not be nil
metadata_of : Option Value → Result FinalizeError Fields
metadata_of none = ok empty
metadata_of (some (object m)) = ok m
metadata_of (some _) = err bad_metadata

-- `json.Unmarshal` into a slice of strings, where null is the empty text
texts_of : Values → Option (List Bytes)
texts_of nil = some []
texts_of (cons (text t) vs) = elim (texts_of vs) [ none ↦ none | some ts ↦ some (t ∷ ts) ]
texts_of (cons Value.null vs) = elim (texts_of vs) [ none ↦ none | some ts ↦ some ([] ∷ ts) ]
texts_of (cons _ vs) = none

tags_of : Option Value → Result FinalizeError (List Bytes)
unfolding texts_of
tags_of none = ok []
tags_of (some Value.null) = ok []
tags_of (some (array vs)) = elim (texts_of vs) [ none ↦ err bad_tags | some ts ↦ ok ts ]
tags_of (some _) = err bad_tags

unfoldable pub texts : List Bytes → Values
texts [] = nil
texts (t ∷ ts) = cons (text t) (texts ts)

abbrev pub client_tags : Upstream → Bytes → List Bytes
client_tags cfg token = cfg.tags ++ (codes "token:" ++ token) ∷ []

tagged : Upstream → Bytes → Fields → Result FinalizeError Fields
unfolding metadata_of tags_of texts get put
tagged cfg token body = metadata_of (get (codes "metadata") body) >>= λ metadata.
    tags_of (get (codes "tags") metadata) >>= λ tags. ok (
      put (codes "metadata")
        (object (put (codes "tags") (array (texts (tags ++ client_tags cfg token))) metadata)) body)

abbrev pub is_empty : List Bytes → Bool
is_empty [] = true
is_empty (_ ∷ _) = false

unfoldable pub add_tags : Upstream → Bytes → Fields → Result FinalizeError Fields
unfolding tagged
add_tags cfg token body =
    if bytes_eq cfg.flavor (codes "litellm") && not (is_empty cfg.tags)
    then tagged cfg token body
    else ok body

-- The fields that the program sets after the protected ones.
unfoldable pub set_own : Upstream → Bytes → Bytes → Fields → Fields → Fields
unfolding set_user get put
set_own cfg token target protected body =
    set_user cfg token
      (set_count (get (codes "n") protected) (put (codes "model") (text target) body))

-- `Finalize`
unfoldable pub finalize :
    (Value → Bool)
    → Fields
    → Entry
    → Fields
    → Upstream
    → Bytes
    → Option Catalog
    → Result FinalizeError Fields
unfolding add_extra drop_params is_owned restore set_own add_tags without allows_target
finalize encodes translated entry protected cfg token exposed =
    if not (allows_target exposed entry.target)
    then err target_not_found
    else add_extra encodes translated (extra_of entry.behavior.extra_body) >>= λ extended.
        restore (without is_owned (drop_params (params_of entry.behavior.drop_params) extended))
          protected
        >>= λ restored. add_tags cfg token (set_own cfg token entry.target protected restored)
