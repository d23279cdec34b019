-- ===== src/Catalog/Apply/Kept.antt =====
-- What `apply` and `finish` keep of an entry: its name, its target and whether it is an alias.
use ollame.Prelude.{
  ◌≡◌, refl, ◌∙◌, inl, inr, not, ◌&&◌, Option, Bytes, codes, ok, ok_injective, Bool-cases,
  Option-cases,
}
use ollame.Config.Types.{Config, Behavior}
use ollame.Catalog.{Entry}
use ollame.Catalog.Apply.{apply, finish, settle, seal, is_true, is_text, is_blank}

-- The parts by which an entry is found and sent.
pub record SameEntry (e d : Entry) : Type 0 where
  pub name : d.name ≡ e.name
  pub target : d.target ≡ e.target
  pub alias : d.alias ≡ e.alias

pub SameEntry-trans : (a b c : Entry) → SameEntry a b → SameEntry b c → SameEntry a c
SameEntry-trans a b c h k = record {
  name = k.name ∙ h.name;
  target = k.target ∙ h.target;
  alias = k.alias ∙ h.alias;
}

pub apply-SameEntry : (o : Behavior) (e : Entry) → SameEntry e (apply o e)
unfolding apply
apply-SameEntry o e = record { name = refl; target = refl; alias = refl }

module _ (marshal : Entry → Option Bytes) (sha256 : Bytes → Bytes) where
  seal-SameEntry :
      (e d : Entry) → seal marshal sha256 e ≡ ok d → SameEntry e d × (d.behavior ≡ e.behavior)
  unfolding seal
  seal-SameEntry e d h = elim (Option-cases (marshal e)) [
    | inl bad ↦ absurd (cc (rw (seal, bad) at h))
    | inr (text, good) ↦
        rw (← ok_injective (rw (seal, good) at h))
          (record { name = refl; target = refl; alias = refl }, refl)
  ]

  pub finish-SameEntry :
      (cfg : Config) (e d : Entry)
      → finish marshal sha256 cfg e ≡ ok d
      → SameEntry e d × (d.behavior ≡ e.behavior)
  unfolding finish settle
  finish-SameEntry cfg e d h =
      elim (Bool-cases (is_true e.behavior.think_initial && not (is_true e.behavior.think_tags))) [
        | inl bad ↦ absurd (cc (rw bad at h))
        | inr good ↦
            let h' = rw good at h in
            elim (Bool-cases
              (is_text e.behavior.fim (codes "template") && is_blank e.behavior.fim_template)) [
                | inl bad ↦ absurd (cc (rw bad at h'))
                | inr good' ↦
                    let (same, behavior) = seal-SameEntry (settle cfg e) d (rw good' at h') in
                    (
                      SameEntry-trans e (settle cfg e) d
                          (record { name = refl; target = refl; alias = refl }) same,
                      behavior,
                    )
              ]
      ]
