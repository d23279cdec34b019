-- ===== src/Catalog/Build/Loops.antt =====
-- The entries that the loops of `Build` store: each has its name as its key, and the target of a
-- model that may be exposed.
use ollame.Prelude.{
  ◌≡◌, sym, ◌∙◌, inl, inr, true, false, ◌||◌, List, [], ◌∷◌, Option, Bytes, bytes_eq, bytes_eq_iff,
  contains, Dict, lookup, insert, lookup-insert, insert-AllEntries, AllEntries-map, All, ok,
  ok_injective, bind_ok, Bool-cases, Option-cases,
}
use ollame.Glob.{Pattern}
use ollame.Config.Types.{Config, Behavior}
use mathlib.Core.Path.{subst}
use ollame.Catalog.{Entry, Model, Time}
use ollame.Catalog.Entries.{base_behavior, base_entry}
use ollame.Catalog.Apply.{finish}
use ollame.Catalog.Apply.Kept.{SameEntry-trans, finish-SameEntry}
use ollame.Catalog.Build.{
  Filters, Found, is_eligible, apply_overrides, add_derived, derived_name, dated, add_model,
  add_models,
}
use ollame.Catalog.Build.Steps.{
  apply_overrides-SameEntry, apply_overrides-Closed, Closed, EligibleHolds, NameHolds, FoundHolds,
  NameHolds-insert,
}

module _ (S : Bytes → Type 0) (B : Behavior → Type 0) where
  add_derived-FoundHolds :
      (name : Bytes) (e : Entry) (s : Found)
      → NameHolds S B s.eligible name e
      → FoundHolds S B s
      → FoundHolds S B (add_derived name e s)
  unfolding add_derived
  add_derived-FoundHolds name e s n h = elim (Option-cases (lookup name s.by_name)) [
    | inl absent ↦
        rw (add_derived, absent)
          (record {
            eligible = h.eligible;
            by_name = insert-AllEntries (NameHolds S B s.eligible) name e s.by_name n h.by_name;
          })
    | inr (d, taken) ↦
        rw (add_derived, taken) (record { eligible = h.eligible; by_name = h.by_name })
  ]

  store-FoundHolds :
      (id name : Bytes) (e : Entry) (seen : Dict Time) (s : Found)
      → (e.target ≡ id) × (e.name ≡ name) × (e.alias ≡ false)
      → S id
      → B e.behavior
      → FoundHolds S B s
      → FoundHolds S B
          (add_derived name e (record s { eligible = insert id e s.eligible; first_seen = seen }))
  store-FoundHolds id name e seen s (target, named, alias) sendable behaves h =
      let sent : S e.target = rw target sendable in
      let m = insert id e s.eligible in
      let at_target : bytes_eq id e.target ≡ true = (bytes_eq_iff id e.target).1 (sym target) in
      let old = NameHolds-insert S B id e s.eligible in
      add_derived-FoundHolds name e (record s { eligible = m; first_seen = seen })
        (record {
          named = named;
          sendable = sent;
          behaves = behaves;
          backed = (e, lookup-insert id e.target e s.eligible ∙ rw at_target);
        })
        (record {
          eligible =
              insert-AllEntries (EligibleHolds S B) id e s.eligible
                (record { keyed = target; sendable = sent; behaves = behaves; derived = alias })
                h.eligible;
          by_name = AllEntries-map s.by_name old h.by_name;
        })

module _ (S : Bytes → Type 0) (B : Behavior → Type 0) (regexp : Bytes → Option Pattern)
    (marshal : Entry → Option Bytes) (sha256 : Bytes → Bytes) (cfg : Config) where
  add_model-FoundHolds :
      (f : Filters) (now : Time) (tag : Bytes) (model : Model) (s t : Found)
      → add_model regexp marshal sha256 cfg f now tag model s ≡ ok t
      → S model.id
      → B (base_behavior cfg)
      → All (λ o. Closed B o.behavior) f.overrides
      → FoundHolds S B s
      → FoundHolds S B t
  unfolding add_model base_entry
  add_model-FoundHolds f now tag model s t h sendable base closed k =
      let name = derived_name model.id tag in
      let dates = dated model now s.first_seen in
      let e0 = record (base_entry cfg model name) { modified_at = dates.0 } in
      let (e, fin, done) =
        bind_ok (finish marshal sha256 cfg (apply_overrides f.overrides model.id e0)) _ h in
      let (kept, behavior) =
        finish-SameEntry marshal sha256 cfg (apply_overrides f.overrides model.id e0) e fin in
      let same =
        SameEntry-trans e0 (apply_overrides f.overrides model.id e0) e
          (apply_overrides-SameEntry f.overrides model.id e0) kept in
      let behaves : B e.behavior =
        subst B (sym behavior) (apply_overrides-Closed B f.overrides model.id e0 closed base) in
      rw (← ok_injective done) (
        store-FoundHolds S B model.id name e dates.1 s (same.target, same.name, same.alias) sendable
          behaves k)

  pub add_models-FoundHolds :
      (f : Filters) (now : Time) (tag : Bytes) (models : List Model) (s t : Found)
      → add_models regexp marshal sha256 cfg f now tag models s ≡ ok t
      → All (λ m. is_eligible cfg f m ≡ true → S m.id) models
      → B (base_behavior cfg)
      → All (λ o. Closed B o.behavior) f.overrides
      → FoundHolds S B s
      → FoundHolds S B t
  unfolding add_models
  add_models-FoundHolds f now tag [] s t h a base closed k = rw (← ok_injective h) k
  add_models-FoundHolds f now tag (model ∷ models) s t h a base closed k =
      elim (Bool-cases (bytes_eq model.id [] || contains s.seen_ids model.id)) [
        | inl bad ↦ absurd (cc (rw bad at h))
        | inr good ↦
            let s' : Found = record s { seen_ids = model.id ∷ s.seen_ids } in
            let k' : FoundHolds S B s' = record { eligible = k.eligible; by_name = k.by_name } in
            elim (Bool-cases (is_eligible cfg f model)) [
              | inr skipped ↦
                  add_models-FoundHolds f now tag models s' t (rw (good, skipped) at h) a.1 base
                    closed k'
              | inl used ↦
                  let (mid, step, rest) =
                    bind_ok (add_model regexp marshal sha256 cfg f now tag model s') _
                      (rw (good, used) at h) in
                  add_models-FoundHolds f now tag models mid t rest a.1 base closed
                    (add_model-FoundHolds f now tag model s' mid step (a.0 used) base closed k')
            ]
      ]
