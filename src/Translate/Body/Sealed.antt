-- ===== src/Translate/Body/Sealed.antt =====
-- The fields of a body that only the program sets.
use ollame.Prelude.{
  ◌≡◌, refl, ap, ◌∙◌, inl, inr, arith, true, false, List, [], ◌∷◌, ◌++◌, Option, none, some, Bytes,
  codes, bytes_eq, contains, starts_with, All, Bool, sym, ok_injective, ok, bind_ok, Bool-cases,
}
use ollame.Config.Types.{Upstream}
use ollame.Config.Value.{Value, Fields, text, get, put, without}
use ollame.Config.Value.Laws.{get-put, get-without}
use mathlib.Core.Path.{subst}
use ollame.Translate.Body.Merged.{merged, get-set_own}
use ollame.Translate.Body.Tags.{adds_tags, Attributed, add_tags-off, add_tags-Attributed}
use ollame.Catalog.{Catalog, Entry, allows_target}
use ollame.Translate.Body.{
  protected_key, is_owned, add_extra, extra_of, drop_params, params_of, restore, set_count, set_own,
  add_tags, finalize,
}
use ollame.Translate.Body.Keys.{
  Proper, first_of, get-restore, restore-only, get-set_count, get-set_user, get-add_tags,
  one_choice, get-count, user_of, get-user,
}

abbrev pub given_keys : List Bytes
given_keys =
    codes "messages" ∷ codes "prompt" ∷ codes "input" ∷ codes "stream" ∷ codes "stream_options" ∷ []

abbrev pub routing_keys : List Bytes
routing_keys =
    codes "fallbacks"
    ∷ codes "context_window_fallback_dict"
    ∷ codes "api_base"
    ∷ codes "base_url"
    ∷ codes "api_key"
    ∷ codes "mock_response"
    ∷ []

-- What is sent, whatever the client, the options and the extra body of the model say.
pub record IsSealed (translated : Fields) (entry : Entry) (protected : Fields) (cfg : Upstream)
    (token : Bytes) (exposed : Option Catalog) (out : Fields) : Type 0 where
  pub allowed : allows_target exposed entry.target ≡ true
  pub model : get (codes "model") out ≡ some (text entry.target)
  pub count : get (codes "n") out ≡ one_choice (get (codes "n") protected)
  pub user : get (codes "user") out ≡ user_of cfg token
  pub given : All (λ k. get k out ≡ get k protected) given_keys
  pub unrouted : All (λ k. get k out ≡ none) routing_keys
  pub no_litellm : (rest : Bytes) → get (codes "litellm_" ++ rest) out ≡ none
  pub forwarded :
      (j : Bytes)
      → is_owned j ≡ false
      → bytes_eq (codes "metadata") j ≡ false
      → get j out ≡ merged translated entry j
  pub untagged :
      adds_tags cfg ≡ false
      → get (codes "metadata") out ≡ merged translated entry (codes "metadata")
  pub attributed :
      adds_tags cfg ≡ true
      → Attributed cfg token
          (merged translated entry (codes "metadata"))
          (get (codes "metadata") out)

-- A key that only the protected fields can have, and that is not set behind them.
record IsPlain (j : Bytes) : Type 0 where
  is_own : is_owned j ≡ true
  not_model : bytes_eq (codes "model") j ≡ false
  not_count : bytes_eq (codes "n") j ≡ false
  not_user : bytes_eq (codes "user") j ≡ false
  not_metadata : bytes_eq (codes "metadata") j ≡ false

abbrev with_model : Bytes → Fields → Fields
with_model target body = put (codes "model") (text target) body

abbrev counted : Bytes → Fields → Fields → Fields
counted target protected body = set_count (get (codes "n") protected) (with_model target body)

module _ (cfg : Upstream) (token target : Bytes) (body protected restored out : Fields)
    (proper : Proper protected) (put_back : restore (without is_owned body) protected ≡ ok restored)
    (sent : add_tags cfg token (set_own cfg token target protected restored) ≡ ok out) where
  owned : (j : Bytes) → is_owned j ≡ true → get j restored ≡ get j protected
  owned j h =
      get-restore j (without is_owned body) protected restored put_back proper
      ∙ ap (first_of (get j protected)) (get-without is_owned j body ∙ rw h)
      ∙ first_of-none (get j protected)
    where
      first_of-none : (o : Option Value) → first_of o none ≡ o
      first_of-none none = refl
      first_of-none (some v) = refl

  untouched : (j : Bytes) → IsPlain j → get j out ≡ get j protected
  unfolding set_own
  untouched j k =
      get-add_tags cfg token j _ out sent k.not_metadata
      ∙ get-set_user cfg token j (counted target protected restored) k.not_user
      ∙ get-set_count j (get (codes "n") protected) (with_model target restored) k.not_count
      ∙ get-put (codes "model") j (text target) restored
      ∙ rw k.not_model (owned j k.is_own)

  absent : (j : Bytes) → IsPlain j → protected_key j ≡ false → get j out ≡ none
  absent j k p =
      untouched j k ∙ restore-only j (without is_owned body) protected restored put_back p

  untouched-All : (ks : List Bytes) → All IsPlain ks → All (λ k. get k out ≡ get k protected) ks
  untouched-All [] h = tt
  untouched-All (k ∷ ks) (h, hs) = (untouched k h, untouched-All ks hs)

  absent-All :
      (ks : List Bytes)
      → All IsPlain ks
      → All (λ k. protected_key k ≡ false) ks
      → All (λ k. get k out ≡ none) ks
  absent-All [] h p = tt
  absent-All (k ∷ ks) (h, hs) (p, ps) = (absent k h p, absent-All ks hs ps)

  has_model : get (codes "model") out ≡ some (text target)
  unfolding set_own bytes_eq
  has_model =
      get-add_tags cfg token (codes "model") _ out sent refl
      ∙ get-set_user cfg token (codes "model") (counted target protected restored) refl
      ∙ get-set_count (codes "model") (get (codes "n") protected) (with_model target restored) refl
      ∙ get-put (codes "model") (codes "model") (text target) restored

  has_count : get (codes "n") out ≡ one_choice (get (codes "n") protected)
  unfolding set_own is_owned contains bytes_eq starts_with
  has_count =
      get-add_tags cfg token (codes "n") _ out sent refl
      ∙ get-set_user cfg token (codes "n") (counted target protected restored) refl
      ∙ get-count (get (codes "n") protected) (with_model target restored)
          (get-put (codes "model") (codes "n") (text target) restored ∙ owned (codes "n") refl)

  has_user : get (codes "user") out ≡ user_of cfg token
  unfolding set_own bytes_eq
  has_user =
      get-add_tags cfg token (codes "user") _ out sent refl
      ∙ get-user cfg token (counted target protected restored)

given-IsPlain : All IsPlain given_keys
unfolding is_owned contains bytes_eq starts_with
given-IsPlain = ground arith

routing-IsPlain : All IsPlain routing_keys
unfolding is_owned contains bytes_eq starts_with
routing-IsPlain = ground arith

routing-unprotected : All (λ k. protected_key k ≡ false) routing_keys
unfolding protected_key contains bytes_eq
routing-unprotected = ground arith

litellm-IsPlain : (rest : Bytes) → IsPlain (codes "litellm_" ++ rest)
unfolding is_owned contains bytes_eq starts_with
litellm-IsPlain rest = record {
  is_own = refl;
  not_model = refl;
  not_count = refl;
  not_user = refl;
  not_metadata = refl;
}

-- Where `Finalize` succeeds, on protected fields with no key twice: the target of the entry is one of
-- the catalog's, and whatever the request, the options and the extra body of the model say, the body
-- has that target as its model, one choice where there are choices, the user that the
-- configuration asks for or none, the messages, prompt, input, stream and stream options of the
-- translation or none, and no field that would route the request elsewhere. Every other field but
-- the metadata is the translated one with the extra body's value merged into it, or missing where
-- the model drops it. So is the metadata; with LiteLLM and tags, it is this object, or a new one,
-- in which the configuration's tags and the client's token stand behind the tags that it had, and
-- all else is as it was.
pub finalize-IsSealed :
    (encodes : Value → Bool) (translated : Fields) (entry : Entry) (protected : Fields)
    (cfg : Upstream) (token : Bytes) (exposed : Option Catalog) (out : Fields)
    → Proper protected
    → finalize encodes translated entry protected cfg token exposed ≡ ok out
    → IsSealed translated entry protected cfg token exposed out
unfolding finalize protected_key is_owned contains bytes_eq starts_with
finalize-IsSealed encodes translated entry protected cfg token exposed out proper h =
    elim (Bool-cases (allows_target exposed entry.target)) [
      | inr bad ↦ absurd (cc (rw bad at h))
      | inl good ↦
          let (extended, added, h') =
            bind_ok (add_extra encodes translated (extra_of entry.behavior.extra_body)) _
              (rw good at h) in
          let body = drop_params (params_of entry.behavior.drop_params) extended in
          let (restored, back, sent) = bind_ok (restore (without is_owned body) protected) _ h' in
          let free = λ (j : Bytes) (own : is_owned j ≡ false).
            get-set_own encodes translated entry protected cfg token j extended restored added back
              own in
          let made = set_own cfg token entry.target protected restored in
          let metadata = free (codes "metadata") refl in
          record {
            forwarded = λ j own other. get-add_tags cfg token j made out sent other ∙ free j own;
            untagged = λ off.
                let unchanged = ok_injective (sym (add_tags-off cfg token made off) ∙ sent) in
                ap (get (codes "metadata")) (sym unchanged) ∙ metadata;
            attributed = λ on.
                let told = add_tags-Attributed cfg token made out on sent in
                subst
                  (λ (had : Option Value). Attributed cfg token had (get (codes "metadata") out))
                  metadata told;
            allowed = good;
            model = has_model cfg token entry.target body protected restored out proper back sent;
            count = has_count cfg token entry.target body protected restored out proper back sent;
            user = has_user cfg token entry.target body protected restored out proper back sent;
            given =
                untouched-All cfg token entry.target body protected restored out proper back sent
                  given_keys given-IsPlain;
            unrouted =
                absent-All cfg token entry.target body protected restored out proper back sent
                  routing_keys routing-IsPlain routing-unprotected;
            no_litellm = λ rest.
                absent cfg token entry.target body protected restored out proper back sent
                  (codes "litellm_" ++ rest) (litellm-IsPlain rest) refl;
          }
    ]
