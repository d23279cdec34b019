-- ===== src/Translate/Body/Keys.antt =====
-- What the steps of `Finalize` do to one field.
use ollame.Prelude.{
  ◌≡◌, refl, sym, ap, ◌∙◌, inl, inr, false, not, ◌&&◌, ◌++◌, Option, none, some, Bytes, codes,
  bytes_eq, bytes_eq_iff, ok, ok_injective, bind_ok, Bool-cases, if◌then◌else◌,
}
use ollame.Config.Types.{Upstream}
use ollame.Config.Value.{Value, Fields, empty, field, text, number, object, array, get, put}
use ollame.Config.Value.Laws.{get-put, get-remove}
use ollame.Translate.Body.{
  protected_key, restore, set_count, set_user, add_tags, tagged, is_empty, texts, client_tags,
  metadata_of, tags_of,
}

-- A map with no key twice
abbrev pub Proper : Fields → Type 0
Proper empty = Unit {0}
Proper (field k v m) = (get k m ≡ none) × Proper m

abbrev pub first_of : Option Value → Option Value → Option Value
first_of none other = other
first_of (some v) other = some v

pub get-restore :
    (j : Bytes) (body protected out : Fields)
    → restore body protected ≡ ok out
    → Proper protected
    → get j out ≡ first_of (get j protected) (get j body)
unfolding restore get
get-restore j body empty out h p = ap (get j) (sym (ok_injective h))
get-restore j body (field k v m) out h p = elim (Bool-cases (protected_key k)) [
  | inr bad ↦ absurd (cc (rw bad at h))
  | inl good ↦
      let ih = get-restore j (put k v body) m out (rw good at h) p.1 in
      elim (Bool-cases (bytes_eq k j)) [
        | inl same ↦
            let e : k ≡ j = (bytes_eq_iff k j).0 same in
            rw same
              (ih ∙ rw (sym (ap (λ (x : Bytes). get x m) e) ∙ p.0) (get-put k j v body ∙ rw same))
        | inr other ↦ rw other (ih ∙ ap (first_of (get j m)) (get-put k j v body ∙ rw other))
      ]
]

-- Every protected field that is restored is a protected key.
pub restore-only :
    (j : Bytes) (body protected out : Fields)
    → restore body protected ≡ ok out
    → protected_key j ≡ false
    → get j protected ≡ none
unfolding restore get
restore-only j body empty out h n = refl
restore-only j body (field k v m) out h n = elim (Bool-cases (protected_key k)) [
  | inr bad ↦ absurd (cc (rw bad at h))
  | inl good ↦
      let rest = restore-only j (put k v body) m out (rw good at h) n in
      elim (Bool-cases (bytes_eq k j)) [
        | inl same ↦
            let e = ap protected_key ((bytes_eq_iff k j).0 same) in absurd (cc (sym good ∙ e ∙ n))
        | inr other ↦ rw other rest
      ]
]

pub get-set_count :
    (j : Bytes) (n : Option Value) (body : Fields)
    → bytes_eq (codes "n") j ≡ false
    → get j (set_count n body) ≡ get j body
get-set_count j none body h = refl
get-set_count j (some v) body h = get-put (codes "n") j (number (codes "1")) body ∙ rw h

pub get-set_user :
    (cfg : Upstream) (token j : Bytes) (body : Fields)
    → bytes_eq (codes "user") j ≡ false
    → get j (set_user cfg token body) ≡ get j body
unfolding set_user
get-set_user cfg token j body h = elim (Bool-cases cfg.forward_client_as_user) [
  | inl e ↦ rw e (get-put (codes "user") j _ body ∙ rw h)
  | inr e ↦ rw e (get-remove (codes "user") j body ∙ rw h)
]

-- Only the metadata changes.
tagged-put :
    (cfg : Upstream) (token : Bytes) (body out : Fields)
    → tagged cfg token body ≡ ok out
    → (v : Value) × (out ≡ put (codes "metadata") v body)
unfolding tagged
tagged-put cfg token body out h =
    let (m, _, h') = bind_ok (metadata_of (get (codes "metadata") body)) _ h in
    let (before, _, done) = bind_ok (tags_of (get (codes "tags") m)) _ h' in
    (
      object (put (codes "tags") (array (texts (before ++ client_tags cfg token))) m),
      sym (ok_injective done),
    )

pub get-add_tags :
    (cfg : Upstream) (token j : Bytes) (body out : Fields)
    → add_tags cfg token body ≡ ok out
    → bytes_eq (codes "metadata") j ≡ false
    → get j out ≡ get j body
unfolding add_tags
get-add_tags cfg token j body out h n =
    elim (Bool-cases (bytes_eq cfg.flavor (codes "litellm") && not (is_empty cfg.tags))) [
      | inr off ↦ ap (get j) (sym (ok_injective (rw off at h)))
      | inl on ↦
          let (v, stored) = tagged-put cfg token body out (rw on at h) in
          ap (get j) stored ∙ get-put (codes "metadata") j v body ∙ rw n
    ]

-- The number of choices, where the endpoint has it.
abbrev pub one_choice : Option Value → Option Value
one_choice none = none
one_choice (some _) = some (number (codes "1"))

pub get-count :
    (n : Option Value) (body : Fields)
    → get (codes "n") body ≡ n
    → get (codes "n") (set_count n body) ≡ one_choice n
unfolding bytes_eq
get-count none body h = h
get-count (some v) body h = get-put (codes "n") (codes "n") (number (codes "1")) body

abbrev pub user_of : Upstream → Bytes → Option Value
user_of cfg token =
    if cfg.forward_client_as_user then some (text (cfg.user_prefix ++ token)) else none

pub get-user :
    (cfg : Upstream) (token : Bytes) (body : Fields)
    → get (codes "user") (set_user cfg token body) ≡ user_of cfg token
unfolding set_user bytes_eq
get-user cfg token body = elim (Bool-cases cfg.forward_client_as_user) [
  | inl e ↦ rw e (get-put (codes "user") (codes "user") _ body)
  | inr e ↦ rw e (get-remove (codes "user") (codes "user") body)
]
