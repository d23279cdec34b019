-- ===== src/Auth/Sets.antt =====
-- What `NewSet` builds, and whom `Authenticate` accepts.
use ollame.Prelude.{
  ok, ok_injective, bind_ok, ◌≡◌, ◌↔◌, ◌⊎◌, inl, inr, refl, sym, ◌∙◌, ap, arith, true, not, ◌||◌,
  Option, none, some, List, [], ◌∷◌, Bytes, Dict, bytes_eq, bytes_eq_iff, lookup, insert,
  lookup-insert, contains, Bool-cases, Option-cases, if◌then◌else◌,
}
use ollame.Config.{valid_token_name}
use ollame.Auth.{
  Entry, Source, TokenSet, Named, is_some, add_entries, add_sources, index_digests, new_set,
  confirmed, authenticate,
}

-- The last entry of that name in a list, or the one known before.
abbrev last_entry : Bytes → List Entry → Option Entry → Option Entry
last_entry n [] prior = prior
last_entry n (e ∷ entries) prior =
    last_entry n entries (if bytes_eq e.name n then some e else prior)

-- The entry of the last source that has the name: the one in force.
abbrev pub in_force : Bytes → List Source → Option Entry → Option Entry
in_force n [] prior = prior
in_force n (s ∷ sources) prior = in_force n sources (last_entry n s.entries prior)

abbrev pub digest_of : Option Entry → Option Bytes
digest_of none = none
digest_of (some e) = some e.digest

-- No key stands twice, and every entry stands under its name.
abbrev Proper : Dict Entry → Type 0
Proper [] = Unit {0}
Proper ((k, e) ∷ m) = (e.name ≡ k) × (lookup k m ≡ none) × Proper m

insert-Proper : (e : Entry) (m : Dict Entry) → Proper m → Proper (insert e.name e m)
unfolding insert lookup
insert-Proper e [] p = (refl, refl, tt)
insert-Proper e ((k, d) ∷ m) p = elim (Bool-cases (bytes_eq k e.name)) [
  | inl h ↦ rw h (refl, ground (arith, bytes_eq_iff k e.name), p.2)
  | inr h ↦ rw h (
    p.0,
    ground (arith, lookup-insert e.name k e m, bytes_eq_iff k e.name, bytes_eq_iff e.name k),
    insert-Proper e m p.2,
  )
]

-- The map holds the entries in force, each under its name.
record Holds (m : Dict Entry) (spec : Bytes → Option Entry) : Type 0 where
  proper : Proper m
  entries : (n : Bytes) → lookup n m ≡ spec n

add_entries-Holds :
    (id : Bytes) (entries : List Entry) (seen : List Bytes) (m : Dict Entry) (ws : List Bytes)
    (t : Named)
    → add_entries id entries seen (m, ws) ≡ ok t
    → Proper m
    → Holds t.0 (λ n. last_entry n entries (lookup n m))
unfolding add_entries
add_entries-Holds id [] seen m ws t h p =
    let e : m ≡ t.0 = ap (λ (x : Named). x.0) (ok_injective h) in
    record { proper = rw (← e) p; entries = λ n. ap (lookup n) (sym e) }
add_entries-Holds id (e ∷ entries) seen m ws t h p =
    elim (Bool-cases (not (valid_token_name e.name) || contains seen e.name)) [
      | inl bad ↦ absurd (ground arith)
      | inr good ↦
          let k =
            add_entries-Holds id entries (e.name ∷ seen) (insert e.name e m) _ t (rw good at h)
              (insert-Proper e m p) in
          record { proper = k.proper; entries = λ n. k.entries n ∙ rw (lookup-insert e.name n e m) }
    ]

add_sources-Holds :
    (sources : List Source) (m : Dict Entry) (ws : List Bytes) (t : Named)
    → add_sources sources (m, ws) ≡ ok t
    → Proper m
    → Holds t.0 (λ n. in_force n sources (lookup n m))
unfolding add_sources
add_sources-Holds [] m ws t h p =
    let e : m ≡ t.0 = ap (λ (x : Named). x.0) (ok_injective h) in
    record { proper = rw (← e) p; entries = λ n. ap (lookup n) (sym e) }
add_sources-Holds (s ∷ sources) m ws t h p = elim (Option-cases s.failure) [
  | inr (e, bad) ↦ absurd (ground arith)
  | inl good ↦
      let (u, first, later) =
        bind_ok (add_entries s.id s.entries [] (m, ws)) (add_sources sources) (rw good at h) in
      let k = add_entries-Holds s.id s.entries [] m ws u first p in
      let l = add_sources-Holds sources u.0 u.1 t later k.proper in
      record {
        proper = l.proper;
        entries = λ n. l.entries n ∙ ap (in_force n sources) (k.entries n);
      }
]

-- The loop that turns the map round keeps what was there and adds each entry, and nothing else.
record Indexed (m : Dict Entry) (before after : TokenSet) : Type 0 where
  kept : (d n : Bytes) → lookup d before ≡ some n → lookup d after ≡ some n
  added : (n : Bytes) (e : Entry) → lookup n m ≡ some e → lookup e.digest after ≡ some n
  only :
      (d n : Bytes)
      → lookup d after ≡ some n
      → (lookup d before ≡ some n) ⊎ ((e : Entry) × (lookup n m ≡ some e) × (e.digest ≡ d))

module _ (e : Entry) (k : Bytes) (m : Dict Entry) (set after : TokenSet)
    (i : Indexed m (insert e.digest e.name set) after) (p : Proper ((k, e) ∷ m)) where
  entry_of :
      (n : Bytes) (e' : Entry)
      → lookup {V = Entry} n ((k, e) ∷ m) ≡ some e'
      → lookup e'.digest after ≡ some n
  unfolding lookup
  entry_of n e' q = elim (Bool-cases (bytes_eq k n)) [
    | inl same ↦
        let w : e ≡ e' = ground arith in
        let there = i.kept e.digest e.name (
          lookup-insert e.digest e.digest e.name set
          ∙ rw ((bytes_eq_iff e.digest e.digest).1 refl)) in
        rw (← w) (there ∙ ap some (p.0 ∙ (bytes_eq_iff k n).0 same))
    | inr other ↦ i.added n e' (ground arith)
  ]

  source_of :
      lookup e.digest set ≡ none
      → (d n : Bytes)
      → (lookup d (insert e.digest e.name set) ≡ some n)
        ⊎ ((e' : Entry) × (lookup n m ≡ some e') × (e'.digest ≡ d))
      → (lookup d set ≡ some n)
        ⊎ ((e' : Entry) × (lookup {V = Entry} n ((k, e) ∷ m) ≡ some e') × (e'.digest ≡ d))
  unfolding lookup
  source_of free d n (inl q) = elim (Bool-cases (bytes_eq e.digest d)) [
    | inl same ↦ inr (
      e,
      ground (arith, lookup-insert e.digest d e.name set, bytes_eq_iff k n),
      (bytes_eq_iff e.digest d).0 same,
    )
    | inr other ↦ inl (ground (arith, lookup-insert e.digest d e.name set))
  ]
  source_of free d n (inr (e', q, w)) = inr (e', ground (arith, bytes_eq_iff k n), w)

index_digests-Indexed :
    (m : Dict Entry) (set after : TokenSet)
    → index_digests m set ≡ ok after
    → Proper m
    → Indexed m set after
unfolding index_digests lookup is_some
index_digests-Indexed [] set after h p =
    let e : set ≡ after = ok_injective h in
    record {
      kept = λ d n k. rw (← e) k;
      added = λ n e k. absurd (ground arith);
      only = λ d n k. inl (rw e k);
    }
index_digests-Indexed ((k, e) ∷ m) set after h p = elim (Option-cases (lookup e.digest set)) [
  | inr (x, taken) ↦ absurd (ground arith)
  | inl free ↦
      let i = index_digests-Indexed m (insert e.digest e.name set) after (ground arith) p.2 in
      record {
        kept = λ d n q.
            i.kept d n
              (ground (arith, lookup-insert e.digest d e.name set, bytes_eq_iff e.digest d));
        added = λ n e' q. entry_of e k m set after i p n e' q;
        only = λ d n q. source_of e k m set after i p free d n (i.only d n q);
      }
]

digest_of_inv :
    (o : Option Entry) (d : Bytes)
    → digest_of o ≡ some d
    → (e : Entry) × (o ≡ some e) × (e.digest ≡ d)
digest_of_inv none d h = absurd (ground arith)
digest_of_inv (some e) d h = (e, refl, ground arith)

Indexed-iff :
    {m : Dict Entry} {set : TokenSet} (spec : Bytes → Option Entry)
    → Indexed m [] set
    → ((n : Bytes) → lookup n m ≡ spec n)
    → (d n : Bytes) → (lookup d set ≡ some n) ↔ (digest_of (spec n) ≡ some d)
unfolding lookup
Indexed-iff {m} {set} spec i k d n = (
  λ q. elim (i.only d n q) [
    | inl old ↦ absurd (ground arith)
    | inr (e, l, w) ↦ ap digest_of (sym (k n) ∙ l) ∙ ap some w
  ],
  λ q. let (e, l, w) = digest_of_inv (spec n) d q in rw w at (i.added n e (k n ∙ l)),
)

-- The set knows a digest exactly by the name whose entry in force has it.
pub new_set-in_force :
    (sources : List Source) (set : TokenSet) (ws : List Bytes)
    → new_set sources ≡ ok (set, ws)
    → (d n : Bytes) → (lookup d set ≡ some n) ↔ (digest_of (in_force n sources none) ≡ some d)
unfolding new_set lookup
new_set-in_force sources set ws h d n =
    let (named, first, later) = bind_ok (add_sources sources ([], [])) _ h in
    let (set', second, last) = bind_ok (index_digests named.0 []) _ later in
    let same : set' ≡ set = ap (λ (x : TokenSet × List Bytes). x.0) (ok_injective last) in
    let k = add_sources-Holds sources [] [] named first tt in
    let i = index_digests-Indexed named.0 [] set (second ∙ ap ok same) k.proper in
    Indexed-iff (λ x. in_force x sources none) i k.entries d n

lookup-confirmed : (set : TokenSet) (d n : Bytes) → lookup d set ≡ some n → confirmed n d set ≡ true
unfolding lookup confirmed
lookup-confirmed [] d n h = absurd (ground arith)
lookup-confirmed ((stored, name) ∷ set) d n h =
    ground (arith, bytes_eq_iff name n, lookup-confirmed set d n)

-- A credential is accepted under a name exactly if the entry in force of that name has its digest.
pub authenticate-in_force :
    (sha256 : Bytes → Bytes) (sources : List Source) (set : TokenSet) (ws : List Bytes)
    → new_set sources ≡ ok (set, ws)
    → (credential n : Bytes)
    → (authenticate sha256 set credential ≡ ok n)
      ↔ (digest_of (in_force n sources none) ≡ some (sha256 credential))
unfolding authenticate
authenticate-in_force sha256 sources set ws h credential n =
    let d = sha256 credential in
    let known = new_set-in_force sources set ws h d n in
    (
      λ q. known.0 (ground (arith, lookup-confirmed set d n)),
      λ q. ground (arith, known.1 q, lookup-confirmed set d n (known.1 q)),
    )
