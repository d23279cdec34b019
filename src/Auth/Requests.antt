-- ===== src/Auth/Requests.antt =====
-- Which credential decides a request.
use ollame.Prelude.{
  ℕ, ◌++◌, Option-cases, some, count, cut, cut-splits, cut-count, equal_fold, drop, ok, err,
  ok_injective, bind_ok, Result-cases, ◌≡◌, ◌≢◌, inl, inr, refl, sym, arith, Bool, true, false, not,
  ◌&&◌, List, [], ◌∷◌, Bytes, codes, bytes_eq, bytes_eq_iff, Bool-cases, if◌then◌else◌,
}
use mathlib.Core.Path.{subst}
use ollame.Prelude.Base64.{decode}
use ollame.Auth.{
  basic_auth, basic_credential, unauthorized, Header, AuthConfig, TokenSet, values, credential_of,
  header_credential, only_key, authenticate, authorize,
}

-- Where an Authorization header is present, well formed or not, no other header decides: two
-- requests with the same values of it are answered alike.
pub authorize_no_fallback :
    (sha256 : Bytes → Bytes) (set : TokenSet) (cfg : AuthConfig) (headers other : Header)
    → (value : Bytes) (more : List Bytes) → values (codes "Authorization") headers ≡ value ∷ more
    → values (codes "Authorization") other ≡ value ∷ more
    → authorize sha256 set headers cfg ≡ authorize sha256 set other cfg
unfolding authorize
authorize_no_fallback sha256 set cfg headers other value [] h k = rw (h, k)
authorize_no_fallback sha256 set cfg headers other value (v ∷ more) h k = rw (h, k)

-- The parts of a text before and behind its first byte `c`.
abbrev pub Parts : ℕ → Bytes → Bytes → Bytes → Type 0
Parts c s u v = (s ≡ u ++ c ∷ v) × (count c u ≡ 0)

-- The credential that a request gives, by the values of its two headers: what stands behind the
-- word `Bearer`, or the password of basic authentication, or its user where the password is empty,
-- each of the only Authorization header; or, where there is none, the only X-Api-Key.
pub data Gives (cfg : AuthConfig) (vs keys : List Bytes) : Bytes → Type 0 where
  bearer :
      (value scheme credential : Bytes)
      → vs ≡ value ∷ []
      → Parts b' ' value scheme credential
      → equal_fold scheme (codes "Bearer") ≡ true
      → Gives cfg vs keys credential
  basic :
      (value scheme rest text user pass : Bytes)
      → vs ≡ value ∷ []
      → Parts b' ' value scheme rest
      → equal_fold scheme (codes "Basic") ≡ true
      → cfg.accept_basic ≡ true
      → decode (drop 6 value) ≡ some text
      → Parts b':' text user pass
      → Gives cfg vs keys (if bytes_eq pass [] then user else pass)
  api_key :
      (credential : Bytes)
      → vs ≡ []
      → cfg.accept_x_api_key ≡ true
      → keys ≡ credential ∷ []
      → Gives cfg vs keys credential

cut-Parts : (c : ℕ) (s u v : Bytes) → cut (c ∷ []) s ≡ some (u, v) → Parts c s u v
cut-Parts c s u v h = (cut-splits (c ∷ []) s u v h, cut-count c s u v h)

-- What `BasicAuth` reads.
basic_auth-Parts :
    (value user pass : Bytes)
    → basic_auth value ≡ some (user, pass)
    → (text : Bytes) × (decode (drop 6 value) ≡ some text) × Parts b':' text user pass
unfolding basic_auth
basic_auth-Parts value user pass h = elim (Option-cases (decode (drop 6 value))) [
  | inl bad ↦ absurd (ground arith)
  | inr (text, good) ↦ (text, good, cut-Parts b':' text user pass (ground arith))
]

header_credential-Gives :
    (cfg : AuthConfig) (keys : List Bytes) (value credential : Bytes)
    → header_credential cfg value ≡ ok credential
    → Gives cfg (value ∷ []) keys credential
unfolding header_credential basic_credential
header_credential-Gives cfg keys value credential h = elim (Option-cases (cut (codes " ") value)) [
  | inl bad ↦ absurd (ground arith)
  | inr ((scheme, rest), split) ↦
      let parts = cut-Parts b' ' value scheme rest split in
      elim (Bool-cases (equal_fold scheme (codes "Bearer"))) [
        | inl word ↦
            let same : rest ≡ credential = ground arith in
            subst (Gives cfg (value ∷ []) keys) same (bearer value scheme rest refl parts word)
        | inr other ↦ elim (Option-cases (basic_auth value)) [
          | inl bad ↦ absurd (ground arith)
          | inr ((user, pass), read) ↦
              let (text, decoded, named) = basic_auth-Parts value user pass read in
              let same : (if bytes_eq pass [] then user else pass) ≡ credential = ground arith in
              subst (Gives cfg (value ∷ []) keys) same (
                basic value scheme rest text user pass refl parts (ground arith) (ground arith)
                  decoded named)
        ]
      ]
]

credential_of-Gives :
    (cfg : AuthConfig) (vs keys : List Bytes) (credential : Bytes)
    → credential_of cfg vs keys ≡ ok (credential, true)
    → Gives cfg vs keys credential
unfolding credential_of only_key
credential_of-Gives cfg [] [] credential h = absurd (ground arith)
credential_of-Gives cfg [] (k ∷ []) credential h =
    api_key credential refl (ground arith) (ground arith)
credential_of-Gives cfg [] (k ∷ l ∷ keys) credential h = absurd (ground arith)
credential_of-Gives cfg (v ∷ []) keys credential h = elim (Result-cases (header_credential cfg v)) [
  | inl (c, e) ↦
      let same : c ≡ credential = ground arith in
      subst (Gives cfg (v ∷ []) keys) same (header_credential-Gives cfg keys v c e)
  | inr (x, e) ↦ absurd (ground arith)
]
credential_of-Gives cfg (v ∷ w ∷ vs) keys credential h = absurd (ground arith)

-- Why a request is let in under a name.
pub data Admitted (sha256 : Bytes → Bytes) (set : TokenSet) (headers : Header) (cfg : AuthConfig)
    (n : Bytes) : Type 0 where
  disabled : cfg.mode ≡ codes "disabled" → n ≡ codes "anonymous" → Admitted sha256 set headers cfg n
  optional :
      cfg.mode ≡ codes "optional"
      → values (codes "Authorization") headers ≡ []
      → (cfg.accept_x_api_key ≡ true → values (codes "X-Api-Key") headers ≡ [])
      → n ≡ codes "anonymous"
      → Admitted sha256 set headers cfg n
  token :
      (credential : Bytes)
      → Gives cfg
          (values (codes "Authorization") headers)
          (values (codes "X-Api-Key") headers)
          credential
      → credential ≢ []
      → authenticate sha256 set credential ≡ ok n
      → Admitted sha256 set headers cfg n

-- Where no credential is present none was looked at, and it is empty.
absent :
    (cfg : AuthConfig) (vs keys : List Bytes) (credential : Bytes)
    → credential_of cfg vs keys ≡ ok (credential, false)
    → (credential ≡ []) × (vs ≡ []) × (cfg.accept_x_api_key ≡ true → keys ≡ [])
unfolding credential_of only_key
absent cfg [] [] credential h = (ground arith, refl, λ e. refl)
absent cfg [] (k ∷ []) credential h = (ground arith, refl, λ e. absurd (ground arith))
absent cfg [] (k ∷ l ∷ keys) credential h = (ground arith, refl, λ e. absurd (ground arith))
absent cfg (v ∷ []) keys credential h = elim (Result-cases (header_credential cfg v)) [
  | inl (c, e) ↦ absurd (ground arith)
  | inr (x, e) ↦ absurd (ground arith)
]
absent cfg (v ∷ w ∷ vs) keys credential h = absurd (ground arith)

module _ (sha256 : Bytes → Bytes) (set : TokenSet) (headers : Header) (cfg : AuthConfig) where
  -- The part of `Authorize` behind the search for a credential.
  decided :
      (credential : Bytes) (present : Bool) (n : Bytes)
      → credential_of cfg
          (values (codes "Authorization") headers)
          (values (codes "X-Api-Key") headers)
        ≡ ok (credential, present)
      → (if not present && bytes_eq cfg.mode (codes "optional")
          then ok (codes "anonymous")
          else if bytes_eq credential []
          then err unauthorized
          else authenticate sha256 set credential)
        ≡ ok n
      → Admitted sha256 set headers cfg n
  decided credential true n c h =
      token credential (credential_of-Gives cfg _ _ credential c)
        (λ e. ground (arith, bytes_eq_iff credential []))
        (ground (arith, bytes_eq_iff credential []))
  decided credential false n c h =
      let (none_given, no_header, no_key) = absent cfg _ _ credential c in
      elim (Bool-cases (bytes_eq cfg.mode (codes "optional"))) [
        | inl e ↦
            optional ((bytes_eq_iff _ _).0 e) no_header no_key (sym (ok_injective (rw e at h)))
        | inr e ↦ absurd (ground (arith, bytes_eq_iff credential []))
      ]

  -- A request is let in only as anonymous where authentication is disabled; as anonymous where it is
  -- optional and there is no Authorization header and no X-Api-Key that would be read; or under the
  -- name as which the credential that it gives authenticates, which is not empty. That is what
  -- stands behind the first space of its only Authorization header, where `Bearer` stands before
  -- it; with `Basic`, where this is accepted, the password in that header, or the user where the
  -- password is empty; and without an Authorization header its only X-Api-Key, where this is
  -- accepted.
  pub authorize-Admitted :
      (n : Bytes) → authorize sha256 set headers cfg ≡ ok n → Admitted sha256 set headers cfg n
  unfolding authorize
  authorize-Admitted n h = elim (Bool-cases (bytes_eq cfg.mode (codes "disabled"))) [
    | inl e ↦ disabled ((bytes_eq_iff _ _).0 e) (sym (ok_injective (rw e at h)))
    | inr e ↦
        let ((credential, present), c, later) = bind_ok (credential_of cfg _ _) _ (rw e at h) in
        decided credential present n c later
  ]
