-- ===== src/Config/Validate/Sound/Accepted.antt =====
-- The theorems on `Validate`: its aliases, its tokens and the fields that no `extra_body` sets.
use ollame.Prelude.{
  ◌≡◌, refl, ◌↔◌, ◌⊎◌, inl, inr, Bool, arith, true, false, List, [], ◌∷◌, codes, Option, Bytes,
  bytes_eq, bytes_eq_iff, contains, Apart, All, ok, Bool-cases,
}
use ollame.Config.{valid_token_name}
use ollame.Config.Types.{Token, Alias, Override, Behavior, Config}
use ollame.Config.Value.{Fields}
use ollame.Config.Validate.{
  Check, Profile, serve_profile, Url, ◌>>◌, validate_token, validate_behavior, given, hex_digest,
  check_aliases, check_tokens, check_overrides, check_models, check_serve, validate, serve_part,
  protected_keys, has_key, unprotected,
}
use ollame.Config.Validate.Sound.{
  then_ok, AliasesHold, check_aliases_sound, check_aliases_complete, check_tokens_iff, token_names,
}

-- The loop over the aliases in `Validate` succeeds exactly when every alias has a well-formed name,
-- a target that is not blank, a valid thinking default and a valid behavior, and no two of the
-- normalized names are equal.
pub check_aliases_iff :
    (tag : Bytes) (aliases : List Alias)
    → (check_aliases tag [] aliases ≡ ok tt)
      ↔ ((names : List Bytes) × AliasesHold tag aliases names × Apart names)
unfolding contains
check_aliases_iff tag aliases = (
  λ h. let (names, holds, apart, _) = check_aliases_sound tag [] aliases h in (names, holds, apart),
  λ (names, holds, apart).
      check_aliases_complete tag [] aliases names holds apart (all_absent names),
)
  where
    all_absent : (names : List Bytes) → All (λ n. contains [] n ≡ false) names
    all_absent [] = tt
    all_absent (n ∷ names) = (refl, all_absent names)

unprotected-absent :
    (m : Option Fields) (keys : List Bytes) (k : Bytes)
    → unprotected m keys ≡ ok tt
    → contains keys k ≡ true
    → has_key m k ≡ false
unfolding unprotected contains
unprotected-absent m [] k h c = absurd cc
unprotected-absent m (j ∷ keys) k h c = elim (Bool-cases (has_key m j)) [
  | inl bad ↦ absurd (ground arith)
  | inr good ↦ elim (Bool-cases (bytes_eq j k)) [
    | inl same ↦ let e : j ≡ k = (bytes_eq_iff j k).0 same in rw (← e) good
    | inr other ↦ unprotected-absent m keys k (rw good at h) (rw other at c)
  ]
]

-- The fields of a request that the program sets itself, or reads from the client.
abbrev pub request_fields : List Bytes
request_fields =
    codes "model"
    ∷ codes "messages"
    ∷ codes "prompt"
    ∷ codes "input"
    ∷ codes "stream"
    ∷ codes "stream_options"
    ∷ codes "n"
    ∷ codes "user"
    ∷ []

abbrev pub SparesProtected : Behavior → Type 0
SparesProtected b = All (λ k. has_key b.extra_body k ≡ false) request_fields

protected_keys-cover : All (λ k. contains protected_keys k ≡ true) request_fields
unfolding contains bytes_eq
protected_keys-cover = ground arith

unprotected-All :
    (m : Option Fields) (keys fields : List Bytes)
    → unprotected m keys ≡ ok tt
    → All (λ k. contains keys k ≡ true) fields
    → All (λ k. has_key m k ≡ false) fields
unprotected-All m keys [] h c = tt
unprotected-All m keys (k ∷ fields) h (c, cs) =
    (unprotected-absent m keys k h c, unprotected-All m keys fields h cs)

pub validate_behavior-SparesProtected :
    (b : Behavior) → validate_behavior b ≡ ok tt → SparesProtected b
unfolding validate_behavior
validate_behavior-SparesProtected b h =
    unprotected-All b.extra_body protected_keys request_fields (ground arith) protected_keys-cover

module _ (P : Behavior → Type 0) (holds : (b : Behavior) → validate_behavior b ≡ ok tt → P b) where
  AliasesHold-behaves :
      (tag : Bytes) (aliases : List Alias) (names : List Bytes)
      → AliasesHold tag aliases names
      → All (λ a. P a.behavior) aliases
  AliasesHold-behaves tag [] names h = tt
  AliasesHold-behaves tag (a ∷ aliases) [] h = elim h [ ]
  AliasesHold-behaves tag (a ∷ aliases) (n ∷ names) (k, h) =
      (holds a.behavior k.behaves, AliasesHold-behaves tag aliases names h)

  check_overrides-behaves :
      (compiles : Bytes → Bool) (overrides : List Override)
      → check_overrides compiles overrides ≡ ok tt
      → All (λ o. P o.behavior) overrides
  unfolding check_overrides
  check_overrides-behaves compiles [] h = tt
  check_overrides-behaves compiles (o ∷ overrides) h =
      let (head, tail) = then_ok _ (check_overrides compiles overrides) h in
      (holds o.behavior (then_ok _ _ head).1, check_overrides-behaves compiles overrides tail)

-- What is asked of one inline token.
pub record TokenHolds (t : Token) : Type 0 where
  pub valid_name : valid_token_name t.name ≡ true
  pub one_source : given (t.token ∷ t.sha256 ∷ t.token_file ∷ t.token_env ∷ []) ≡ 1
  pub digest : (t.sha256 ≡ []) ⊎ (hex_digest t.sha256 ≡ true)

validate_token-TokenHolds : (t : Token) → validate_token t ≡ ok tt → TokenHolds t
unfolding validate_token
validate_token-TokenHolds t h = record {
  valid_name = ground arith;
  one_source = ground arith;
  digest = ground (arith, bytes_eq_iff t.sha256 []);
}

All-TokenHolds : (ts : List Token) → All (λ t. validate_token t ≡ ok tt) ts → All TokenHolds ts
All-TokenHolds [] h = tt
All-TokenHolds (t ∷ ts) (h, hs) = (validate_token-TokenHolds t h, All-TokenHolds ts hs)

-- A check before three others succeeds with them.
then_ok_past : (before m k l n : Check) → before >> m >> k >> l >> n ≡ ok tt → m ≡ ok tt
then_ok_past before m k l n h =
    (then_ok before m (then_ok _ k (then_ok _ l (then_ok _ n h).0).0).0).1

module _ (parse_url : Bytes → Option Url) (compiles : Bytes → Bool) (cfg : Config)
    (profile : Profile) (accepted : validate parse_url compiles cfg profile ≡ ok tt) where
  models_ok : check_models parse_url compiles cfg ≡ ok tt
  unfolding validate
  models_ok = (then_ok _ (serve_part compiles profile cfg) accepted).0

  -- In a configuration that `Validate` accepts, for either profile, the aliases have normalized
  -- names of which no two are equal, targets that are not blank, and valid behaviors.
  pub validate-aliases :
      (names : List Bytes) × AliasesHold cfg.models.default_tag cfg.models.aliases names
      × Apart names
  unfolding check_models
  validate-aliases =
      let before = (then_ok _ (check_overrides compiles cfg.models.overrides) models_ok).0 in
      (check_aliases_iff cfg.models.default_tag cfg.models.aliases).0
        (then_ok _ (check_aliases cfg.models.default_tag [] cfg.models.aliases) before).1

  -- What holds of every behavior that `validateBehavior` accepts holds of the aliases' and overrides'.
  pub validate-behaves :
      (P : Behavior → Type 0)
      → ((b : Behavior) → validate_behavior b ≡ ok tt → P b)
      → All (λ a. P a.behavior) cfg.models.aliases × All (λ o. P o.behavior) cfg.models.overrides
  unfolding check_models
  validate-behaves P holds =
      let (names, aliases, _) = validate-aliases in
      let overrides = then_ok _ (check_overrides compiles cfg.models.overrides) models_ok in
      (
        AliasesHold-behaves P holds cfg.models.default_tag cfg.models.aliases names aliases,
        check_overrides-behaves P holds compiles cfg.models.overrides overrides.1,
      )

  -- In a configuration that `Validate` accepts, for either profile, no alias and no override sets
  -- one of the protected fields (`model`, `messages`, `prompt`, `input`, `stream`,
  -- `stream_options`, `n`, `user`) by its extra body.
  pub validate-SparesProtected :
      All (λ a. SparesProtected a.behavior) cfg.models.aliases
      × All (λ o. SparesProtected o.behavior) cfg.models.overrides
  validate-SparesProtected = validate-behaves SparesProtected validate_behavior-SparesProtected

module _ (parse_url : Bytes → Option Url) (compiles : Bytes → Bool) (cfg : Config)
    (accepted : validate parse_url compiles cfg serve_profile ≡ ok tt) where
  pub serve_ok : check_serve compiles cfg ≡ ok tt
  unfolding validate
  serve_ok = (then_ok _ (serve_part compiles serve_profile cfg) accepted).1

  -- In a configuration that `Validate` accepts for serving, every inline token has a valid name and
  -- exactly one credential source, a digest is 64 hexadecimal digits, and no two names are equal.
  pub validate-tokens : All TokenHolds cfg.auth.tokens × Apart (token_names cfg.auth.tokens)
  unfolding check_serve
  validate-tokens =
      let before = then_ok_past _ (check_tokens [] cfg.auth.tokens) _ _ _ serve_ok in
      let (holds, apart, _) = (check_tokens_iff [] cfg.auth.tokens).0 before in
      (All-TokenHolds cfg.auth.tokens holds, apart)
