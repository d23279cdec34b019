-- ===== src/Catalog/Listed.antt =====
-- An entry to which a name resolves stands in the catalog.
use ollame.Prelude.{
  ◌≡◌, sym, ◌∙◌, ◌⊎◌, inl, inr, true, [], ◌∷◌, ◌++◌, Option, none, some, Bytes, codes, bytes_eq,
  bytes_eq_iff, Dict, lookup, lookup-insert, to_lower, ok, Bool-cases, Option-cases,
}
use ollame.Prelude.Utf8.{trim_space}
use ollame.Catalog.{
  Catalog, Entry, resolve, find_entry, by_lower, by_tagged, by_raw_tagged, raw_entry, or_else,
  found, cut_suffix, index,
}
use ollame.Catalog.Build.{raw_of}

-- The key of the entry, which may be the first of more.
lookup_behind :
    (k name : Bytes) (e : Entry) (m : Dict Entry)
    → (d : Entry) × (lookup name m ≡ some d)
    → (d : Entry) × (lookup name ((k, e) ∷ m) ≡ some d)
unfolding lookup
lookup_behind k name e m (d, h) = elim (Bool-cases (bytes_eq k name)) [
  | inl same ↦ (e, rw same)
  | inr other ↦ (d, rw other h)
]

-- A name of the map of targets is a name of the map that it was made from.
pub lookup-raw_of :
    (id name : Bytes) (m : Dict Entry)
    → lookup id (raw_of m) ≡ some name
    → (e : Entry) × (lookup name m ≡ some e)
unfolding lookup raw_of
lookup-raw_of id name [] h = absurd cc
lookup-raw_of id name ((k, e) ∷ m) h = elim (Bool-cases e.alias) [
  | inl alias ↦ lookup_behind k name e m (lookup-raw_of id name m (rw alias at h))
  | inr derived ↦
      let h' = sym (lookup-insert e.target id k (raw_of m)) ∙ rw derived at h in
      elim (Bool-cases (bytes_eq e.target id)) [
        | inl same ↦
            let n : ◌≡◌ {A = Option Bytes} (some k) (some name) = rw same at h' in
            let n' : bytes_eq k name ≡ true = (bytes_eq_iff k name).1 cc in (e, rw n')
        | inr other ↦ lookup_behind k name e m (lookup-raw_of id name m (rw other at h'))
      ]
]

-- The map of targets leads to entries.
abbrev pub Leads : Catalog → Type 0
Leads c =
    (id name : Bytes) → lookup id c.raw ≡ some name → (d : Entry) × (lookup name c.by_name ≡ some d)

abbrev pub Listed : Catalog → Entry → Type 0
Listed c e = (k : Bytes) × (lookup k c.by_name ≡ some e)

or_else-cases :
    (a b : Option Entry) (e : Entry) → or_else a b ≡ some e → (a ≡ some e) ⊎ (b ≡ some e)
unfolding or_else
or_else-cases none b e h = inr h
or_else-cases (some d) b e h = inl h

found-ok : (o : Option Entry) (e : Entry) → found o ≡ ok e → o ≡ some e
unfolding found
found-ok none e h = absurd cc
found-ok (some d) e h = cc

module _ (c : Catalog) (leads : Leads c) where
  raw_entry-Listed : (id : Bytes) (e : Entry) → raw_entry c (lookup id c.raw) ≡ some e → Listed c e
  unfolding raw_entry
  raw_entry-Listed id e h = elim (Option-cases (lookup id c.raw)) [
    | inl n ↦ absurd (cc (rw n at h))
    | inr (name, n) ↦
        let (d, there) = leads id name n in
        let same : ◌≡◌ {A = Option Entry} (some d) (some e) = rw there at (rw n at h) in
        (name, there ∙ same)
  ]

  by_tagged-Listed : (input : Bytes) (e : Entry) → by_tagged c input ≡ some e → Listed c e
  unfolding by_tagged
  by_tagged-Listed input e h = elim (Option-cases (index (codes ":") input)) [
    | inl n ↦ (to_lower (input ++ (codes ":" ++ c.default_tag)), rw (by_tagged, n) at h)
    | inr (at, n) ↦ absurd (cc (rw (by_tagged, n) at h))
  ]

  by_raw_tagged-Listed : (input : Bytes) (e : Entry) → by_raw_tagged c input ≡ some e → Listed c e
  unfolding by_raw_tagged
  by_raw_tagged-Listed input e h =
      elim (Option-cases (cut_suffix (codes ":" ++ c.default_tag) input)) [
        | inl n ↦ absurd (cc (rw (by_raw_tagged, n) at h))
        | inr (id, n) ↦ raw_entry-Listed id e (rw (by_raw_tagged, n) at h)
      ]

  find_entry-Listed : (input : Bytes) (e : Entry) → find_entry c input ≡ some e → Listed c e
  unfolding find_entry by_lower
  find_entry-Listed input e h = elim (or_else-cases (by_lower c input) _ e h) [
    | inl first ↦ (to_lower input, first)
    | inr later ↦ elim (or_else-cases (by_tagged c input) _ e later) [
      | inl second ↦ by_tagged-Listed input e second
      | inr later' ↦ elim (or_else-cases (by_raw_tagged c input) _ e later') [
        | inl third ↦ by_raw_tagged-Listed input e third
        | inr fourth ↦ raw_entry-Listed input e fourth
      ]
    ]
  ]

  pub resolve-Listed :
      (requested : Bytes) (e : Entry) → resolve (some c) requested ≡ ok e → Listed c e
  unfolding resolve
  resolve-Listed requested e h =
      let input = trim_space requested in
      elim (Bool-cases (bytes_eq input [])) [
        | inl blank ↦ absurd (cc (rw blank at h))
        | inr given ↦ find_entry-Listed input e (found-ok (find_entry c input) e (rw given at h))
      ]
