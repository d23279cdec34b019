-- ===== src/Auth.antt =====
-- internal/auth/tokens.go: token digests, the set that requests are authenticated against, and the
-- state of the sources that it is built from.
mod Tests
pub mod Sets
pub mod State
pub mod Requests
use ollame.Prelude.{
  Result, ok, err, ◌>>=◌, ok_injective, bind_ok, Result-cases, ℕ, suc, ◌+◌, ◌≡◌, Bool, true, false,
  not, ◌&&◌, ◌||◌, Option, none, some, List, [], ◌∷◌, ◌++◌, Bytes, Dict, codes, bytes_eq, cut, drop,
  take, equal_fold, contains, lookup, insert, length, leb, if◌then◌else◌,
}
use ollame.Prelude.Base64.{decode}
use ollame.Config.{valid_token_name}

pub data Error : Type 0 where
  unauthorized invalid_source ambiguous_token : Error

pub record Entry : Type 0 where
  pub name : Bytes
  pub digest : Bytes

pub record Source : Type 0 where
  pub id : Bytes
  pub entries : List Entry
  pub failure : Option Error

-- The map from digests to names.
abbrev pub TokenSet : Type 0
TokenSet = Dict Bytes

-- `byName` and the warnings
abbrev pub Named : Type 0
Named = Dict Entry × List Bytes

abbrev warning : Bytes → Bytes → Bytes
warning name id = codes "token " ++ (name ++ (codes " overridden by " ++ id))

is_some : {A : Type 0} → Option A → Bool
is_some none = false
is_some (some a) = true

-- The loop over the entries of one source; `seen` holds the names of the source so far.
pub add_entries : Bytes → List Entry → List Bytes → Named → Result Error Named
add_entries id [] seen named = ok named
add_entries id (entry ∷ entries) seen (by_name, warnings) =
    let warned =
      if is_some (lookup entry.name by_name)
      then warnings ++ warning entry.name id ∷ []
      else warnings in
    let rest =
      add_entries id entries (entry.name ∷ seen) (insert entry.name entry by_name, warned) in
    if not (valid_token_name entry.name) || contains seen entry.name
    then err invalid_source
    else rest

pub add_sources : List Source → Named → Result Error Named
add_sources [] named = ok named
add_sources (source ∷ sources) named = elim source.failure [
  | some e ↦ err e
  | none ↦ do named' ← add_entries source.id source.entries [] named; add_sources sources named'
]

-- The loop that turns the map round.
pub index_digests : Dict Entry → TokenSet → Result Error TokenSet
index_digests [] set = ok set
index_digests ((_, entry) ∷ by_name) set =
    let rest = index_digests by_name (insert entry.digest entry.name set) in
    if is_some (lookup entry.digest set) then err ambiguous_token else rest

pub new_set : List Source → Result Error (TokenSet × List Bytes)
unfolding add_entries add_sources index_digests is_some
new_set sources = do
  (by_name, warnings) ← add_sources sources ([], [])
  set ← index_digests by_name []
  ok (set, warnings)

-- `http.Header`, by canonical names
abbrev pub Header : Type 0
Header = Dict (List Bytes)

abbrev pub values : Bytes → Header → List Bytes
values name headers = elim (lookup name headers) [ none ↦ [] | some vs ↦ vs ]

-- The fields of `config.Auth` that requests and reloads read.
pub record AuthConfig : Type 0 where
  pub mode : Bytes
  pub accept_basic : Bool
  pub accept_x_api_key : Bool

-- `Request.BasicAuth` on the value of the header: the user and the password.
basic_auth : Bytes → Option (Bytes × Bytes)
basic_auth value =
    let prefix = codes "Basic " in
    let decoded : Option (Bytes × Bytes) = elim (decode (drop (length prefix) value)) [
      | none ↦ none
      | some text ↦ cut (codes ":") text
    ] in
    if leb (length prefix) (length value) && equal_fold (take (length prefix) value) prefix
    then decoded
    else none

basic_credential : Option (Bytes × Bytes) → Result Error Bytes
basic_credential none = err unauthorized
basic_credential (some (user, pass)) = ok (if bytes_eq pass [] then user else pass)

-- The credential of the only Authorization header.
pub header_credential : AuthConfig → Bytes → Result Error Bytes
unfolding basic_auth basic_credential
header_credential cfg value = elim (cut (codes " ") value) [
  | none ↦ err unauthorized
  | some (scheme, rest) ↦
      if equal_fold scheme (codes "Bearer")
      then ok rest
      else if equal_fold scheme (codes "Basic") && cfg.accept_basic
      then basic_credential (basic_auth value)
      else err unauthorized
]

only_key : List Bytes → Result Error (Bytes × Bool)
only_key [] = ok ([], false)
only_key (key ∷ []) = ok (key, true)
only_key (_ ∷ _ ∷ _) = err unauthorized

-- `credential` and `present`, from the values of the two headers
pub credential_of : AuthConfig → List Bytes → List Bytes → Result Error (Bytes × Bool)
unfolding only_key
credential_of cfg [] keys = if cfg.accept_x_api_key then only_key keys else ok ([], false)
credential_of cfg (value ∷ []) keys = do
  credential ← header_credential cfg value
  ok (credential, true)
credential_of cfg (_ ∷ _ ∷ _) keys = err unauthorized

-- The second loop of `Authenticate`: a stored digest under that name equals the digest.
confirmed : Bytes → Bytes → TokenSet → Bool
confirmed name digest [] = false
confirmed name digest ((stored, stored_name) ∷ set) =
    (bytes_eq stored_name name && bytes_eq stored digest) || confirmed name digest set

-- `sha256.Sum256` is a parameter.
module _ (sha256 : Bytes → Bytes) where
  pub authenticate : TokenSet → Bytes → Result Error Bytes
  unfolding confirmed
  authenticate set credential = elim (lookup (sha256 credential) set) [
    | none ↦ err unauthorized
    | some name ↦ if confirmed name (sha256 credential) set then ok name else err unauthorized
  ]

  pub authorize : TokenSet → Header → AuthConfig → Result Error Bytes
  unfolding credential_of header_credential
  authorize set headers cfg =
      if bytes_eq cfg.mode (codes "disabled") then ok (codes "anonymous") else do
        (credential, present) ←
            credential_of cfg (values (codes "Authorization") headers)
              (values (codes "X-Api-Key") headers)
        if not present && bytes_eq cfg.mode (codes "optional")
            then ok (codes "anonymous")
            else if bytes_eq credential []
            then err unauthorized
            else authenticate set credential
