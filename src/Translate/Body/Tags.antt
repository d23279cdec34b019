-- ===== src/Translate/Body/Tags.antt =====
-- The metadata and its tags, as `Finalize` reads them.
use ollame.Prelude.{
  ◌≡◌, ◌≢◌, refl, sym, ap, ◌∙◌, ◌⊎◌, inl, inr, Bool, true, false, not, ◌&&◌, List, [], ◌∷◌, ◌++◌,
  Option, none, some, Bytes, codes, bytes_eq, ok, err, ok_injective, Result,
}
use mathlib.Core.Path.{subst}
use ollame.Config.Types.{Upstream}
use ollame.Config.Value.{
  Value, Values, Fields, boolean, number, text, array, object, nil, cons, empty, get, put,
}
use ollame.Config.Value.Laws.{get-put}
use ollame.Translate.Body.{
  FinalizeError, bad_metadata, bad_tags, metadata_of, texts_of, tags_of, tagged, add_tags, is_empty,
  texts, client_tags,
}

-- An object, which is empty where there is none.
abbrev pub IsMetadata : Option Value → Fields → Type 0
IsMetadata o m = ((o ≡ none) × (m ≡ empty)) ⊎ (o ≡ some (object m))

-- A text, where null stands for the empty one.
abbrev pub IsText : Value → Bytes → Type 0
IsText v t = (v ≡ text t) ⊎ ((v ≡ Value.null) × (t ≡ []))

-- A list of texts.
abbrev pub AreTexts : Values → List Bytes → Type 0
AreTexts nil [] = Unit {0}
AreTexts nil (t ∷ ts) = ⊥
AreTexts (cons v vs) [] = ⊥
AreTexts (cons v vs) (t ∷ ts) = IsText v t × AreTexts vs ts

-- Tags, of which there are none where the field is missing or null.
abbrev pub AreTags : Option Value → List Bytes → Type 0
AreTags o ts =
    (((o ≡ none) ⊎ (o ≡ some Value.null)) × (ts ≡ []))
    ⊎ ((vs : Values) × (o ≡ some (array vs)) × AreTexts vs ts)

-- Metadata that is no object, and metadata with tags that are no list of texts.
abbrev pub NoMetadata : Option Value → Type 0
NoMetadata o = (v : Value) × (o ≡ some v) × ((m : Fields) → v ≢ object m)

abbrev pub NoTags : Option Value → Type 0
NoTags o =
    (m : Fields) × (o ≡ some (object m)) × ((ts : List Bytes) → ¬ AreTags (get (codes "tags") m) ts)

metadata_of-cases :
    (o : Option Value)
    → ((m : Fields) × (metadata_of o ≡ ok m) × IsMetadata o m)
      ⊎ ((metadata_of o ≡ err bad_metadata) × NoMetadata o)
unfolding metadata_of
metadata_of-cases none = inl (empty, refl, inl (refl, refl))
metadata_of-cases (some (object m)) = inl (m, refl, inr refl)
metadata_of-cases (some Value.null) = inr (refl, (Value.null, refl, λ m e. absurd cc))
metadata_of-cases (some (boolean b)) = inr (refl, (boolean b, refl, λ m e. absurd cc))
metadata_of-cases (some (text t)) = inr (refl, (text t, refl, λ m e. absurd cc))
metadata_of-cases (some (number t)) = inr (refl, (number t, refl, λ m e. absurd cc))
metadata_of-cases (some (array vs)) = inr (refl, (array vs, refl, λ m e. absurd cc))

no_head :
    (v : Value) (vs : Values)
    → ((t : Bytes) → ¬ IsText v t)
    → (ts : List Bytes) → ¬ AreTexts (cons v vs) ts
no_head v vs h [] a = a
no_head v vs h (t ∷ ts) (a, _) = h t a

no_tail :
    (v : Value) (vs : Values)
    → ((ts : List Bytes) → ¬ AreTexts vs ts)
    → (ts : List Bytes) → ¬ AreTexts (cons v vs) ts
no_tail v vs h [] a = a
no_tail v vs h (t ∷ ts) (_, a) = h ts a

not_text : (v : Value) → ((t : Bytes) → v ≢ text t) → v ≢ Value.null → (t : Bytes) → ¬ IsText v t
not_text v h n t (inl e) = h t e
not_text v h n t (inr (e, _)) = n e

texts_of-cases :
    (vs : Values)
    → ((ts : List Bytes) × (texts_of vs ≡ some ts) × AreTexts vs ts)
      ⊎ ((texts_of vs ≡ none) × ((ts : List Bytes) → ¬ AreTexts vs ts))
unfolding texts_of
texts_of-cases nil = inl ([], refl, tt)
texts_of-cases (cons (text t) vs) = elim (texts_of-cases vs) [
  | inl (ts, e, a) ↦ inl (t ∷ ts, rw (texts_of, e) refl, (inl refl, a))
  | inr (e, n) ↦ inr (rw (texts_of, e) refl, no_tail (text t) vs n)
]
texts_of-cases (cons Value.null vs) = elim (texts_of-cases vs) [
  | inl (ts, e, a) ↦ inl ([] ∷ ts, rw (texts_of, e) refl, (inr (refl, refl), a))
  | inr (e, n) ↦ inr (rw (texts_of, e) refl, no_tail Value.null vs n)
]
texts_of-cases (cons (boolean b) vs) =
    inr (refl, no_head (boolean b) vs (not_text (boolean b) (λ t e. absurd cc) (λ e. absurd cc)))
texts_of-cases (cons (number t) vs) =
    inr (refl, no_head (number t) vs (not_text (number t) (λ t e. absurd cc) (λ e. absurd cc)))
texts_of-cases (cons (array ws) vs) =
    inr (refl, no_head (array ws) vs (not_text (array ws) (λ t e. absurd cc) (λ e. absurd cc)))
texts_of-cases (cons (object m) vs) =
    inr (refl, no_head (object m) vs (not_text (object m) (λ t e. absurd cc) (λ e. absurd cc)))

not_tags :
    (v : Value)
    → v ≢ Value.null
    → ((vs : Values) (ts : List Bytes) → v ≡ array vs → ¬ AreTexts vs ts)
    → (ts : List Bytes) → ¬ AreTags (some v) ts
not_tags v n h ts (inl (inl e, _)) = absurd cc
not_tags v n h ts (inl (inr e, _)) = n cc
not_tags v n h ts (inr (vs, e, a)) = let same : v ≡ array vs = cc in h vs ts same a

tags_of-cases :
    (o : Option Value)
    → ((ts : List Bytes) × (tags_of o ≡ ok ts) × AreTags o ts)
      ⊎ ((tags_of o ≡ err bad_tags) × ((ts : List Bytes) → ¬ AreTags o ts))
unfolding tags_of
tags_of-cases none = inl ([], refl, inl (inl refl, refl))
tags_of-cases (some Value.null) = inl ([], refl, inl (inr refl, refl))
tags_of-cases (some (array vs)) = elim (texts_of-cases vs) [
  | inl (ts, e, a) ↦ inl (ts, rw (tags_of, e) refl, inr (vs, refl, a))
  | inr (e, n) ↦ inr (
    rw (tags_of, e) refl,
    not_tags (array vs) (λ same. absurd cc)
        (λ ws ts same a.
          let back : ws ≡ vs = cc in n ts (subst (λ (x : Values). AreTexts x ts) back a)),
  )
]
tags_of-cases (some (boolean b)) =
    inr (refl, not_tags (boolean b) (λ e. absurd cc) (λ vs ts e a. absurd cc))
tags_of-cases (some (text t)) =
    inr (refl, not_tags (text t) (λ e. absurd cc) (λ vs ts e a. absurd cc))
tags_of-cases (some (number t)) =
    inr (refl, not_tags (number t) (λ e. absurd cc) (λ vs ts e a. absurd cc))
tags_of-cases (some (object m)) =
    inr (refl, not_tags (object m) (λ e. absurd cc) (λ vs ts e a. absurd cc))

-- LiteLLM with tags, which go into the metadata that the body has.
abbrev pub adds_tags : Upstream → Bool
adds_tags cfg = bytes_eq cfg.flavor (codes "litellm") && not (is_empty cfg.tags)

-- The metadata that is sent: the tags of the configuration and the client's token stand behind the
-- tags that the metadata had, and all else in it is as it was.
pub record Attributed (cfg : Upstream) (token : Bytes) (had sent : Option Value) : Type 0 where
  pub before : Fields
  pub after : Fields
  pub tags : List Bytes
  pub was_metadata : IsMetadata had before
  pub had_tags : AreTags (get (codes "tags") before) tags
  pub stored : sent ≡ some (object after)
  pub added : get (codes "tags") after ≡ some (array (texts (tags ++ client_tags cfg token)))
  pub kept : (j : Bytes) → bytes_eq (codes "tags") j ≡ false → get j after ≡ get j before

-- The body that comes of adding the tags.
abbrev with_tags : Upstream → Bytes → Fields → List Bytes → Fields
with_tags cfg token m ts = put (codes "tags") (array (texts (ts ++ client_tags cfg token))) m

-- What becomes of the metadata, where there are tags to be added.
abbrev pub Tagging : Upstream → Bytes → Fields → Result FinalizeError Fields → Type 0
Tagging cfg token body r =
    let had = get (codes "metadata") body in
    ((out : Fields) × (r ≡ ok out) × Attributed cfg token had (get (codes "metadata") out))
    ⊎ ((r ≡ err bad_metadata) × NoMetadata had)
    ⊎ ((r ≡ err bad_tags) × NoTags had)

IsMetadata-NoTags :
    (o : Option Value) (m : Fields)
    → IsMetadata o m
    → ((ts : List Bytes) → ¬ AreTags (get (codes "tags") m) ts)
    → NoTags o
unfolding get
IsMetadata-NoTags o m (inl (_, e)) n =
    let none_there = ap (get (codes "tags")) e in absurd (n [] (inl (inl none_there, refl)))
IsMetadata-NoTags o m (inr e) n = (m, e, n)

tagged-Tagging :
    (cfg : Upstream) (token : Bytes) (body : Fields)
    → Tagging cfg token body (tagged cfg token body)
unfolding tagged bytes_eq
tagged-Tagging cfg token body = elim (metadata_of-cases (get (codes "metadata") body)) [
  | inr (bad, why) ↦ inr (inl (rw bad refl, why))
  | inl (m, good, was) ↦ elim (tags_of-cases (get (codes "tags") m)) [
    | inr (bad, n) ↦ inr (inr (rw (good, bad) refl, IsMetadata-NoTags _ m was n))
    | inl (ts, fine, had) ↦
        let after = with_tags cfg token m ts in
        let value = array (texts (ts ++ client_tags cfg token)) in
        inl (
          put (codes "metadata") (object after) body,
          rw (good, fine) refl,
          record {
            before = m;
            after = after;
            tags = ts;
            was_metadata = was;
            had_tags = had;
            stored = get-put (codes "metadata") (codes "metadata") (object after) body;
            added = get-put (codes "tags") (codes "tags") value m;
            kept = λ j other. get-put (codes "tags") j value m ∙ rw other refl;
          },
        )
  ]
]

pub add_tags-Tagging :
    (cfg : Upstream) (token : Bytes) (body : Fields)
    → adds_tags cfg ≡ true
    → Tagging cfg token body (add_tags cfg token body)
unfolding add_tags
add_tags-Tagging cfg token body on = rw on (tagged-Tagging cfg token body)

pub add_tags-Attributed :
    (cfg : Upstream) (token : Bytes) (body out : Fields)
    → adds_tags cfg ≡ true
    → add_tags cfg token body ≡ ok out
    → Attributed cfg token (get (codes "metadata") body) (get (codes "metadata") out)
add_tags-Attributed cfg token body out on h = elim (add_tags-Tagging cfg token body on) [
  | inl (made, e, a) ↦
      let same = ap (get (codes "metadata")) (ok_injective (sym e ∙ h)) in
      subst (Attributed cfg token (get (codes "metadata") body)) same a
  | inr (inl (e, _)) ↦ absurd (cc (sym e ∙ h))
  | inr (inr (e, _)) ↦ absurd (cc (sym e ∙ h))
]

pub add_tags-off :
    (cfg : Upstream) (token : Bytes) (body : Fields)
    → adds_tags cfg ≡ false
    → add_tags cfg token body ≡ ok body
unfolding add_tags
add_tags-off cfg token body off = rw off refl
