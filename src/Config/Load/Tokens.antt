-- ===== src/Config/Load/Tokens.antt =====
-- Which entries `ParseTokens` accepts, and what it makes of them.
use ollame.Prelude.{
  ◌≡◌, refl, sym, ap, ◌∙◌, ◌↔◌, inl, inr, arith, Bool, true, false, List, [], ◌∷◌, ◌++◌, map, Bytes,
  codes, bytes_eq, bytes_eq_iff, contains, count, cut, cut_byte, cut-splits, starts_with,
  starts_with-splits, drop, All, ok, Bool-cases, Option-cases, Result-cases, if◌then◌else◌, bind_ok,
  ok_injective, ap₂,
}
use ollame.Config.{valid_token_name, token_chars, token_char}
use ollame.Config.Types.{Token}
use ollame.Config.Validate.{validate_token, check_tokens, given}
use ollame.Config.Load.{
  entry_token, checked_token, parse_entry, parse_tokens_from, parse_tokens, sha256_prefix,
}

-- The entry for a token: its name, and its text or its digest.
abbrev pub entry_of : Token → Bytes
entry_of t =
    t.name ++ (codes "=" ++ (if bytes_eq t.sha256 [] then t.token else sha256_prefix ++ t.sha256))

-- A token that an entry can give: no file and no variable, and no text that looks like a digest.
pub record IsInline (t : Token) : Type 0 where
  pub no_file : t.token_file ≡ []
  pub no_env : t.token_env ≡ []
  pub plain : starts_with sha256_prefix t.token ≡ false

record Parsed (seen : List Bytes) (entry : Bytes) (t : Token) : Type 0 where
  inline : IsInline t
  valid : validate_token t ≡ ok tt
  new : contains seen t.name ≡ false
  printed : entry ≡ entry_of t

checked_token-ok : (t u : Token) → checked_token t ≡ ok u → (t ≡ u) × (validate_token t ≡ ok tt)
checked_token-ok t u h = elim (Result-cases (validate_token t)) [
  | inl (tt, e) ↦ (ground arith, e)
  | inr (e, bad) ↦ absurd (ground arith)
]

abbrev digest_token : Bytes → Bytes → Token
digest_token name d = record {
  name = name;
  token = [];
  sha256 = d;
  token_file = [];
  token_env = [];
}

digest_entry :
    (name d : Bytes)
    → validate_token (digest_token name d) ≡ ok tt
    → entry_of (digest_token name d) ≡ name ++ (codes "=" ++ (sha256_prefix ++ d))
unfolding validate_token given bytes_eq
digest_entry name [] h = absurd (ground arith)
digest_entry name (c ∷ d) h = refl

-- The token of a valid entry prints as the entry.
entry_token-entry_of :
    (name value : Bytes)
    → validate_token (entry_token name value) ≡ ok tt
    → IsInline (entry_token name value)
      × (entry_of (entry_token name value) ≡ name ++ (codes "=" ++ value))
unfolding entry_token bytes_eq starts_with
entry_token-entry_of name value h = elim (Bool-cases (starts_with sha256_prefix value)) [
  | inl e ↦
      let t = digest_entry name (drop 7 value) (rw e at h) in
      rw e (
        record { no_file = refl; no_env = refl; plain = refl },
        t
            ∙ ap (λ (v : Bytes). name ++ (codes "=" ++ v))
                (sym (starts_with-splits sha256_prefix value e)),
      )
  | inr e ↦ rw e (record { no_file = refl; no_env = refl; plain = e }, refl)
]

entry_token-name : (name value : Bytes) → (entry_token name value).name ≡ name
unfolding entry_token
entry_token-name name value = ground arith

parse_entry-Parsed :
    (seen : List Bytes) (entry : Bytes) (t : Token)
    → parse_entry seen entry ≡ ok t
    → Parsed seen entry t
unfolding parse_entry
parse_entry-Parsed seen entry t h = elim (Option-cases (cut (codes "=") entry)) [
  | inl e ↦ absurd (ground arith)
  | inr ((name, value), e) ↦ elim (Bool-cases (contains seen name)) [
    | inl old ↦ absurd (ground arith)
    | inr new ↦
        let (same, valid) = checked_token-ok (entry_token name value) t (ground arith) in
        let (inline, printed) = entry_token-entry_of name value valid in
        rw (← same) (record {
          inline = inline;
          valid = valid;
          new = rw (entry_token-name name value) new;
          printed = cut-splits (codes "=") entry name value e ∙ sym printed;
        })
  ]
]

-- A valid token name has no `=`.
token_chars-count :
    (later : Bool) (name : Bytes) → token_chars later name ≡ true → count b'=' name ≡ 0
unfolding token_chars token_char
token_chars-count later [] h = refl
token_chars-count later (c ∷ name) h = ground (arith, token_chars-count true name)

valid_token_name-count : (name : Bytes) → valid_token_name name ≡ true → count b'=' name ≡ 0
unfolding valid_token_name
valid_token_name-count name h = ground (arith, token_chars-count false name)

valid-name : (t : Token) → validate_token t ≡ ok tt → valid_token_name t.name ≡ true
unfolding validate_token
valid-name t h = ground arith

-- What stands behind the `=`.
abbrev value_of : Token → Bytes
value_of t = if bytes_eq t.sha256 [] then t.token else sha256_prefix ++ t.sha256

plain_token :
    (t : Token)
    → IsInline t
    → validate_token t ≡ ok tt
    → t.sha256 ≡ []
    → (bytes_eq t.token [] ≡ false) × (entry_token t.name t.token ≡ t)
unfolding validate_token given entry_token bytes_eq
plain_token t inline h e = ground arith

hashed_token :
    (t : Token)
    → IsInline t
    → validate_token t ≡ ok tt
    → bytes_eq t.sha256 [] ≡ false
    → entry_token t.name (sha256_prefix ++ t.sha256) ≡ t
unfolding validate_token given entry_token starts_with
hashed_token t inline h e = ground (arith, bytes_eq_iff t.token [])

value_of-token :
    (t : Token)
    → IsInline t
    → validate_token t ≡ ok tt
    → (bytes_eq (value_of t) [] ≡ false) × (entry_token t.name (value_of t) ≡ t)
unfolding bytes_eq
value_of-token t inline h = elim (Bool-cases (bytes_eq t.sha256 [])) [
  | inl e ↦ rw e (plain_token t inline h ((bytes_eq_iff t.sha256 []).0 e))
  | inr e ↦ rw e (refl, hashed_token t inline h e)
]

checked_token_lem : (t : Token) → validate_token t ≡ ok tt → checked_token t ≡ ok t
checked_token_lem t h = rw (checked_token, h)

parse-entry_of :
    (seen : List Bytes) (t : Token)
    → IsInline t
    → validate_token t ≡ ok tt
    → contains seen t.name ≡ false
    → parse_entry seen (entry_of t) ≡ ok t
unfolding parse_entry
parse-entry_of seen t inline h new =
    let (given, same) = value_of-token t inline h in
    let name = valid-name t h in
    let found = cut_byte b'=' t.name (value_of t) (valid_token_name-count t.name name) in
    ground (arith, found, checked_token_lem t h)

parse_tokens_from_sound :
    (seen entries : List Bytes) (ts : List Token)
    → parse_tokens_from seen entries ≡ ok ts
    → (check_tokens seen ts ≡ ok tt) × All IsInline ts × (entries ≡ map entry_of ts)
unfolding parse_tokens_from check_tokens
parse_tokens_from_sound seen [] ts h = rw (← ok_injective h) (refl, tt, refl)
parse_tokens_from_sound seen (entry ∷ entries) ts h =
    let (t, parsed, h') = bind_ok (parse_entry seen entry) _ h in
    let (rest, parsed', h'') = bind_ok (parse_tokens_from (t.name ∷ seen) entries) _ h' in
    let p = parse_entry-Parsed seen entry t parsed in
    let (checked, inline, printed) = parse_tokens_from_sound (t.name ∷ seen) entries rest parsed' in
    rw (← ok_injective h'') (
      ground (arith, p.valid, p.new, checked),
      (p.inline, inline),
      ap₂ (λ (x : Bytes) (xs : List Bytes). x ∷ xs) p.printed printed,
    )

parse_tokens_from_complete :
    (seen : List Bytes) (ts : List Token)
    → check_tokens seen ts ≡ ok tt
    → All IsInline ts
    → parse_tokens_from seen (map entry_of ts) ≡ ok ts
unfolding parse_tokens_from check_tokens
parse_tokens_from_complete seen [] h inline = refl
parse_tokens_from_complete seen (t ∷ ts) h inline =
    ground (arith, parse-entry_of seen t inline.0, parse_tokens_from_complete (t.name ∷ seen) ts)

-- `ParseTokens` returns the tokens `ts` exactly when they pass the loop over the tokens in
-- `Validate`, each has a text or a digest and nothing else, no text begins with `sha256:`, and the
-- entries are the tokens printed as `name=text` or `name=sha256:digest`, in order.
pub parse_tokens_iff :
    (entries : List Bytes) (ts : List Token)
    → (parse_tokens entries ≡ ok ts)
      ↔ ((check_tokens [] ts ≡ ok tt) × All IsInline ts × (entries ≡ map entry_of ts))
unfolding parse_tokens
parse_tokens_iff entries ts = (
  parse_tokens_from_sound [] entries ts,
  λ (checked, inline, printed). rw printed (parse_tokens_from_complete [] ts checked inline),
)
