-- ===== src/Catalog/Build/Aliased.antt =====
-- The entries that the loop over the aliases stores, and the targets that it hides.
use ollame.Prelude.{
  ◌≡◌, refl, sym, ap, ◌∙◌, inl, inr, arith, Bool, true, false, List, [], ◌∷◌, Option, some, Bytes,
  bytes_eq_iff, contains, Dict, lookup, AllEntries, insert-AllEntries, lookup-AllEntries, All, ok,
  ok_injective, bind_ok, Bool-cases, Option-cases,
}
use mathlib.Core.Path.{subst}
use ollame.Glob.{Pattern}
use ollame.Config.Types.{Config, Behavior, Alias}
use ollame.Config.Names.{normalize_alias}
use ollame.Catalog.{Entry}
use ollame.Catalog.Apply.{finish, apply, override_behavior}
use ollame.Catalog.Apply.Kept.{SameEntry, finish-SameEntry}
use ollame.Catalog.Build.{Exposed, alias_entry, add_alias, add_aliases, hide, name_or}
use ollame.Catalog.Build.Steps.{Closed, EligibleHolds, NameHolds}

-- Where the alias hides its target and has one, the target is among those hidden.
abbrev pub Hides : Dict Entry → List Bytes → Alias → Type 0
Hides eligible hidden a =
    (d : Entry)
    → lookup a.target eligible ≡ some d
    → a.hide_target ≡ true
    → contains hidden a.target ≡ true

-- What one round of the loop leaves.
record AliasStep (S : Bytes → Type 0) (B : Behavior → Type 0) (eligible : Dict Entry) (a : Alias)
    (s t : Exposed) : Type 0 where
  exposed :
      AllEntries (NameHolds S B eligible) s.exposed → AllEntries (NameHolds S B eligible) t.exposed
  grows : (x : Bytes) → contains s.hidden x ≡ true → contains t.hidden x ≡ true
  hides : Hides eligible t.hidden a

hide_grows :
    (b : Bool) (target : Bytes) (hidden : List Bytes) (x : Bytes)
    → contains hidden x ≡ true
    → contains (hide b target hidden) x ≡ true
unfolding contains
hide_grows true target hidden x h = ground arith
hide_grows false target hidden x h = h

hide_target :
    (b : Bool) (target : Bytes) (hidden : List Bytes)
    → b ≡ true
    → contains (hide b target hidden) target ≡ true
unfolding contains
hide_target true target hidden h = ground (arith, bytes_eq_iff target target)
hide_target false target hidden h = absurd cc

alias_entry-parts :
    (name : Bytes) (a : Alias) (d : Entry)
    → ((alias_entry name a d).name ≡ name) × ((alias_entry name a d).target ≡ d.target)
unfolding alias_entry
alias_entry-parts name a d = (refl, refl)

alias_entry-behavior :
    (name : Bytes) (a : Alias) (d : Entry)
    → (alias_entry name a d).behavior ≡ override_behavior a.behavior d.behavior
unfolding alias_entry apply
alias_entry-behavior name a d = refl

module _ (S : Bytes → Type 0) (B : Behavior → Type 0) (regexp : Bytes → Option Pattern)
    (marshal : Entry → Option Bytes) (sha256 : Bytes → Bytes) (cfg : Config) (tag : Bytes)
    (eligible : Dict Entry) (held : AllEntries (EligibleHolds S B) eligible) where
  alias-NameHolds :
      (name : Bytes) (a : Alias) (d e : Entry)
      → lookup a.target eligible ≡ some d
      → SameEntry (alias_entry name a d) e
      → e.behavior ≡ (alias_entry name a d).behavior
      → Closed B a.behavior
      → NameHolds S B eligible name e
  alias-NameHolds name a d e there same behavior closed =
      let (named, target) = alias_entry-parts name a d in
      let k = lookup-AllEntries (EligibleHolds S B) a.target d eligible held there in
      let sent : S e.target = subst S (sym (same.target ∙ target)) k.sendable in
      record {
        named = same.name ∙ named;
        sendable = sent;
        behaves =
            subst B (sym (behavior ∙ alias_entry-behavior name a d)) (closed d.behavior k.behaves);
        backed =
            (d, ap (λ (x : Bytes). lookup x eligible) (same.target ∙ target ∙ k.keyed) ∙ there);
      }

  add_alias-AliasStep :
      (a : Alias) (s t : Exposed)
      → add_alias regexp marshal sha256 cfg tag eligible a s ≡ ok t
      → Closed B a.behavior
      → AliasStep S B eligible a s t
  unfolding add_alias
  add_alias-AliasStep a s t h closed =
      let (name, norm, h') = bind_ok (name_or (normalize_alias a.name tag)) _ h in
      elim (Bool-cases (contains s.names name)) [
        | inl again ↦ absurd (cc (rw again at h'))
        | inr new ↦ elim (Option-cases (lookup a.target eligible)) [
          | inl absent ↦ rw (← ok_injective (rw absent at (rw new at h'))) (record {
            exposed = λ k. k;
            grows = λ x k. k;
            hides = λ d k. absurd (cc (sym absent ∙ k));
          })
          | inr (d, there) ↦
              let (e, fin, done) =
                bind_ok (finish marshal sha256 cfg (alias_entry name a d)) _
                  (rw there at (rw new at h')) in
              let (same, behavior) =
                finish-SameEntry marshal sha256 cfg (alias_entry name a d) e fin in
              rw (← ok_injective done) (record {
                exposed = λ k.
                    insert-AllEntries (NameHolds S B eligible) name e s.exposed
                      (alias-NameHolds name a d e there same behavior closed) k;
                grows = hide_grows a.hide_target a.target s.hidden;
                hides = λ _ _. hide_target a.hide_target a.target s.hidden;
              })
        ]
      ]

  pub record Aliased (aliases : List Alias) (s t : Exposed) : Type 0 where
    pub exposed : AllEntries (NameHolds S B eligible) t.exposed
    pub grows : (x : Bytes) → contains s.hidden x ≡ true → contains t.hidden x ≡ true
    pub hides : All (Hides eligible t.hidden) aliases

  pub add_aliases-Aliased :
      (aliases : List Alias) (s t : Exposed)
      → add_aliases regexp marshal sha256 cfg tag eligible aliases s ≡ ok t
      → All (λ a. Closed B a.behavior) aliases
      → AllEntries (NameHolds S B eligible) s.exposed
      → Aliased aliases s t
  unfolding add_aliases
  add_aliases-Aliased [] s t h closed k =
      rw (← ok_injective h) (record { exposed = k; grows = λ x p. p; hides = tt })
  add_aliases-Aliased (a ∷ aliases) s t h closed k =
      let (mid, step, rest) = bind_ok (add_alias regexp marshal sha256 cfg tag eligible a s) _ h in
      let first = add_alias-AliasStep a s mid step closed.0 in
      let then_all = add_aliases-Aliased aliases mid t rest closed.1 (first.exposed k) in
      record {
        exposed = then_all.exposed;
        grows = λ x p. then_all.grows x (first.grows x p);
        hides = (λ d there hid. then_all.grows a.target (first.hides d there hid), then_all.hides);
      }
