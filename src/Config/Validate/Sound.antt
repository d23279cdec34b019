-- ===== src/Config/Validate/Sound.antt =====
-- The configurations that `Validate` accepts.
pub mod Accepted
pub mod Styles
use ollame.Prelude.{
  ◌≡◌, refl, ◌↔◌, ◌⊎◌, inl, inr, arith, true, false, not, ◌&&◌, ◌||◌, List, [], ◌∷◌, map, Bytes,
  bytes_eq, bytes_eq_iff, contains, Apart, All, Result, ok, err, ◌>>=◌, Bool-cases, Result-cases,
  ◌≢◌,
}
use ollame.Prelude.Utf8.{trim_space}
use ollame.Config.Names.{normalize_alias, valid_think}
use ollame.Config.Types.{Token, Alias}
use ollame.Config.Validate.{
  Check, ◌>>◌, refuse, duplicate_alias, bad_alias_target, named, validate_token, validate_behavior,
  check_tokens, check_aliases,
}

pub then_ok : (m k : Check) → m >> k ≡ ok tt → (m ≡ ok tt) × (k ≡ ok tt)
then_ok (ok tt) k h = (refl, h)
then_ok (err e) k h = absurd cc

-- Later names differ from `x` exactly when `x` is not among them.
fresh_name :
    (x : Bytes) (seen names : List Bytes)
    → All (λ n. contains (x ∷ seen) n ≡ false) names
      ↔ ((contains names x ≡ false) × All (λ n. contains seen n ≡ false) names)
unfolding contains
fresh_name x seen [] = ground arith
fresh_name x seen (n ∷ names) =
    ground (arith, fresh_name x seen names, bytes_eq_iff x n, bytes_eq_iff n x)

abbrev pub token_names : List Token → List Bytes
token_names = map (λ t. t.name)

pub check_tokens_iff :
    (seen : List Bytes) (ts : List Token)
    → (check_tokens seen ts ≡ ok tt) ↔ (
        All (λ t. validate_token t ≡ ok tt) ts
        × Apart (token_names ts)
        × All (λ n. contains seen n ≡ false) (token_names ts))
unfolding check_tokens
check_tokens_iff seen [] = ground arith
check_tokens_iff seen (t ∷ ts) =
    ground (arith, check_tokens_iff (t.name ∷ seen) ts, fresh_name t.name seen (token_names ts))

-- What is asked of one alias, with the name that it is exposed under.
pub record AliasHolds (tag : Bytes) (a : Alias) (name : Bytes) : Type 0 where
  pub normalized : normalize_alias a.name tag ≡ ok name
  pub targeted : trim_space a.target ≢ []
  pub thinks : valid_think a.think ≡ true
  pub behaves : validate_behavior a.behavior ≡ ok tt

abbrev pub AliasesHold : Bytes → List Alias → List Bytes → Type 0
AliasesHold tag [] [] = Unit {0}
AliasesHold tag (a ∷ aliases) (n ∷ names) = AliasHolds tag a n × AliasesHold tag aliases names
AliasesHold tag _ _ = ⊥

alias_ok :
    (tag name : Bytes) (a : Alias)
    → normalize_alias a.name tag ≡ ok name
    → (refuse (bytes_eq (trim_space a.target) [] || not (valid_think a.think)) bad_alias_target
        ≡ ok tt)
    → validate_behavior a.behavior ≡ ok tt
    → AliasHolds tag a name
alias_ok tag name a h t b = record {
  normalized = h;
  targeted = ground (arith, bytes_eq_iff (trim_space a.target) []);
  thinks = ground arith;
  behaves = b;
}

pub check_aliases_sound :
    (tag : Bytes) (seen : List Bytes) (aliases : List Alias)
    → check_aliases tag seen aliases ≡ ok tt
    → (names : List Bytes) × AliasesHold tag aliases names
      × Apart names
      × All (λ n. contains seen n ≡ false) names
unfolding check_aliases
check_aliases_sound tag seen [] h = ([], tt, tt, tt)
check_aliases_sound tag seen (a ∷ aliases) h = elim (Result-cases (normalize_alias a.name tag)) [
  | inr (e, bad) ↦ absurd (ground arith)
  | inl (name, good) ↦
      let (rest, tail) = then_ok _ (check_aliases tag (name ∷ seen) aliases) (rw good at h) in
      let (rest', behaves) = then_ok _ (validate_behavior a.behavior) rest in
      let (new, target) = then_ok (refuse (contains seen name) duplicate_alias) _ rest' in
      let (names, holds, apart, fresh) = check_aliases_sound tag (name ∷ seen) aliases tail in
      let (absent, fresh') = (fresh_name name seen names).0 fresh in
      (
        name ∷ names,
        (alias_ok tag name a good target behaves, holds),
        (absent, apart),
        (ground arith, fresh'),
      )
]

pub check_aliases_complete :
    (tag : Bytes) (seen : List Bytes) (aliases : List Alias) (names : List Bytes)
    → AliasesHold tag aliases names
    → Apart names
    → All (λ n. contains seen n ≡ false) names
    → check_aliases tag seen aliases ≡ ok tt
unfolding check_aliases
check_aliases_complete tag seen [] names h apart fresh = refl
check_aliases_complete tag seen (a ∷ aliases) [] h apart fresh = elim h [ ]
check_aliases_complete tag seen (a ∷ aliases) (n ∷ names) (k, h) apart fresh =
    let rest =
      check_aliases_complete tag (n ∷ seen) aliases names h apart.1
        ((fresh_name n seen names).1 (apart.0, fresh.1)) in
    rw (k.normalized, fresh.0, k.thinks, k.behaves)
      (ground (arith, rest, k.targeted, bytes_eq_iff (trim_space a.target) []))
