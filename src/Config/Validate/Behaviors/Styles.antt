-- ===== src/Config/Validate/Behaviors/Styles.antt =====
-- The style of thinking in a configuration and in the behaviors that `validateBehavior` accepts.
use ollame.Prelude.{
  ◌≡◌, inl, inr, true, not, ◌&&◌, List, [], ◌∷◌, Option, none, some, Bytes, codes, bytes_eq,
  contains, ok, bind_ok, Bool-cases,
}
use ollame.Config.Types.{Behavior}
use ollame.Config.Validate.Enums.{validate_enum, one_of, allowed}
use ollame.Config.Validate.Behaviors.{given_enum, capable, validate_behavior}

abbrev pub styles : List Bytes
styles = codes "reasoning_effort" ∷ codes "chat_template_kwargs" ∷ codes "none" ∷ []

-- A style that is set is one of the three.
abbrev pub StyleHolds : Option Bytes → Type 0
StyleHolds none = Unit {0}
StyleHolds (some s) = contains styles s ≡ true

pub validate_enum-style :
    (s : Bytes) → validate_enum (codes "compat.think_style") s ≡ ok tt → contains styles s ≡ true
unfolding validate_enum one_of allowed bytes_eq
validate_enum-style s h = elim (Bool-cases (contains styles s)) [
  | inl good ↦ good
  | inr bad ↦ absurd (cc (rw bad at h))
]

given_enum-style :
    (o : Option Bytes) → given_enum (codes "compat.think_style") o ≡ ok tt → StyleHolds o
unfolding given_enum
given_enum-style none h = tt
given_enum-style (some s) h = validate_enum-style s h

pub validate_behavior-StyleHolds :
    (b : Behavior) → validate_behavior b ≡ ok tt → StyleHolds b.think_style
unfolding validate_behavior
validate_behavior-StyleHolds b h =
    elim (Bool-cases (
      not
        (capable b.add_capabilities && capable b.remove_capabilities && capable b.capabilities))) [
          | inl bad ↦ absurd (cc (rw bad at h))
          | inr good ↦
              let (_, style, _) =
                bind_ok (given_enum (codes "compat.think_style") b.think_style) _ (rw good at h) in
              given_enum-style b.think_style style
        ]
