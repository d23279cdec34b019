-- ===== src/Translate/Thinking/Served.antt =====
-- What `Thinking` gives for a model of a program that serves.
use ollame.Prelude.{
  ◌≡◌, ◌≢◌, refl, ap, ◌∙◌, ◌⊎◌, inl, inr, arith, true, false, Bool, ◌&&◌, List, Option, none, some,
  Bytes, codes, bytes_eq, bytes_eq_iff, contains, All, [], ◌∷◌, ok, err, Result, Bool-cases,
  lookup-AllEntries,
}
use ollame.Glob.{Pattern}
use ollame.Config.Types.{Config, Compat, Behavior, Alias, Override}
use ollame.Config.Value.{Value, empty}
use ollame.Config.Names.{valid_think}
use ollame.Config.Validate.{Url, serve_profile, validate}
use ollame.Config.Validate.Sound.Accepted.{validate-behaves}
use ollame.Config.Validate.Sound.Styles.{
  styles, StyleHolds, validate_behavior-StyleHolds, validate-style,
}
use ollame.Catalog.{Catalog, Entry, Model, Time, resolve}
use ollame.Catalog.Entries.{base_behavior, knowledge_of}
use ollame.Catalog.Apply.{over, override_behavior}
use ollame.Catalog.Build.{Warning, build}
use ollame.Catalog.Build.Steps.{Closed}
use ollame.Catalog.Listed.{resolve-Listed}
use ollame.Catalog.Legal.{build-Built, Built-Leads}
use ollame.Translate.Thinking.{
  Thought, ThinkError, bad_think, no_thinking, inherited, is_visible, is_nil, is_denied, given_or,
  template_fields, effort_fields, by_effort, by_style, thinking,
}

-- The parameters that ask for reasoning: none, a template's flag that says whether it is shown, or
-- an effort; for a hidden reasoning never the word that stands for no effort.
abbrev pub Asks : Thought → Type 0
Asks t =
    (t.fields ≡ empty)
    ⊎ (t.fields ≡ template_fields t.visible)
    ⊎ ((effort : Bytes) × (t.fields ≡ effort_fields effort)
        × (t.visible ≡ false → effort ≢ codes "omit"))

abbrev Maps : Value → Result ThinkError Thought → Type 0
Maps v r = (t : Thought) × (r ≡ ok t) × (t.visible ≡ is_visible v) × Asks t

abbrev pub Thinks : Value → Entry → Compat → Result ThinkError Thought → Type 0
Thinks v e cfg r =
    ((valid_think v ≡ false) × (r ≡ err bad_think))
    ⊎ ((is_visible v ≡ true)
        × (is_denied (knowledge_of e.knowledge (codes "thinking")) ≡ true)
        × (cfg.strict_capabilities ≡ true)
        × (r ≡ err no_thinking))
    ⊎ Maps v r

differs : (s t : Bytes) → bytes_eq s t ≡ false → s ≢ t
differs s t h same = let equal = (bytes_eq_iff s t).1 same in absurd (cc equal)

-- No parameters.
abbrev unasked : Bool → Value → Thought
unasked relaxed v = record { fields = empty; visible = is_visible v; relaxed = relaxed }

by_effort-Asks :
    (b : Behavior) (cfg : Compat) (v : Value)
    → ((by_effort b cfg v).visible ≡ is_visible v) × Asks (by_effort b cfg v)
unfolding by_effort
by_effort-Asks b cfg v = elim (Bool-cases (is_visible v)) [
  | inl shown ↦ rw shown (refl, inr (inr (_, refl, λ hidden. absurd cc)))
  | inr hidden ↦
      let off = given_or b.think_off cfg.think_off in
      elim (Bool-cases (bytes_eq off (codes "omit"))) [
        | inl omit ↦ rw (hidden, omit) (refl, inl refl)
        | inr sent ↦
            rw (hidden, sent) (refl, inr (inr (off, refl, λ _. differs off (codes "omit") sent)))
      ]
]

is_effort :
    (style : Bytes)
    → contains styles style ≡ true
    → bytes_eq style (codes "none") ≡ false
    → bytes_eq style (codes "chat_template_kwargs") ≡ false
    → bytes_eq style (codes "reasoning_effort") ≡ true
unfolding contains
is_effort style h a b = ground (
  arith,
  bytes_eq_iff style (codes "none"),
  bytes_eq_iff (codes "none") style,
  bytes_eq_iff style (codes "chat_template_kwargs"),
  bytes_eq_iff (codes "chat_template_kwargs") style,
  bytes_eq_iff style (codes "reasoning_effort"),
  bytes_eq_iff (codes "reasoning_effort") style,
)

by_style-Maps :
    (style : Bytes) (b : Behavior) (cfg : Compat) (v : Value)
    → contains styles style ≡ true
    → Maps v (by_style style b cfg v)
unfolding by_style
by_style-Maps style b cfg v h = elim (Bool-cases (bytes_eq style (codes "none"))) [
  | inl none_sent ↦ rw none_sent (_, refl, refl, inl refl)
  | inr other ↦ elim (Bool-cases (bytes_eq style (codes "chat_template_kwargs"))) [
    | inl template ↦ rw (other, template) (_, refl, refl, inr (inl refl))
    | inr effort ↦
        let by_word : bytes_eq style (codes "reasoning_effort") ≡ true =
          is_effort style h other effort in
        rw (other, effort, by_word)
          (by_effort b cfg v, refl, (by_effort-Asks b cfg v).0, (by_effort-Asks b cfg v).1)
  ]
]

thinking-Thinks :
    (request : Value) (e : Entry) (cfg : Compat)
    → contains styles (given_or e.behavior.think_style cfg.think_style) ≡ true
    → Thinks (inherited request e.think) e cfg (thinking request e cfg)
unfolding thinking
thinking-Thinks request e cfg h =
    let v = inherited request e.think in
    elim (Bool-cases (valid_think v)) [
      | inr bad ↦ inl (bad, rw bad refl)
      | inl good ↦ elim (Bool-cases (is_nil v)) [
        | inl nil ↦ inr (inr (unasked false v, rw (good, nil) refl, refl, inl refl))
        | inr given ↦
            elim (Bool-cases
              (is_visible v && is_denied (knowledge_of e.knowledge (codes "thinking")))) [
                | inr able ↦
                    let (t, mapped, shown, asks) =
                      by_style-Maps (given_or e.behavior.think_style cfg.think_style) e.behavior cfg
                        v h in
                    inr (inr (t, rw (good, given, able) mapped, shown, asks))
                | inl unable ↦ elim (Bool-cases cfg.strict_capabilities) [
                  | inl strict ↦ inr (
                      inl
                        (ground arith, ground arith, strict, rw (good, given, unable, strict) refl))
                  | inr lax ↦
                      inr (inr (unasked true v, rw (good, given, unable, lax) refl, refl, inl refl))
                ]
              ]
      ]
    ]

-- A behavior with one of the three styles.
abbrev HasStyle : Behavior → Type 0
HasStyle b = (s : Bytes) × (b.think_style ≡ some s) × (contains styles s ≡ true)

over-style :
    (update prior : Option Bytes)
    → StyleHolds update
    → (s : Bytes) × (prior ≡ some s) × (contains styles s ≡ true)
    → (s : Bytes) × (over update prior ≡ some s) × (contains styles s ≡ true)
over-style none prior u p = p
over-style (some s) prior u p = (s, refl, u)

style-Closed : (o : Behavior) → StyleHolds o.think_style → Closed HasStyle o
unfolding override_behavior
style-Closed o u b p = over-style o.think_style b.think_style u p

overrides-Closed :
    (os : List Override)
    → All (λ o. StyleHolds o.behavior.think_style) os
    → All (λ o. Closed HasStyle o.behavior) os
overrides-Closed [] h = tt
overrides-Closed (o ∷ os) h = (style-Closed o.behavior h.0, overrides-Closed os h.1)

aliases-Closed :
    (aliases : List Alias)
    → All (λ a. StyleHolds a.behavior.think_style) aliases
    → All (λ a. Closed HasStyle a.behavior) aliases
aliases-Closed [] h = tt
aliases-Closed (a ∷ aliases) h = (style-Closed a.behavior h.0, aliases-Closed aliases h.1)

module _ (parse_url : Bytes → Option Url) (compiles : Bytes → Bool)
    (regexp : Bytes → Option Pattern) (marshal : Entry → Option Bytes) (sha256 : Bytes → Bytes)
    (cfg : Config) (models : List Model) where
  resolve-HasStyle :
      (previous : Option Catalog) (now : Time) (c : Catalog) (ws : List Warning) (requested : Bytes)
      (e : Entry)
      → validate parse_url compiles cfg serve_profile ≡ ok tt
      → build regexp marshal sha256 cfg models previous now ≡ ok (c, ws)
      → resolve (some c) requested ≡ ok e
      → HasStyle e.behavior
  unfolding base_behavior
  resolve-HasStyle previous now c ws requested e accepted built resolved =
      let (aliases, overrides) =
        validate-behaves parse_url compiles cfg serve_profile accepted
          (λ b. StyleHolds b.think_style) validate_behavior-StyleHolds in
      let (f, _, b) =
        build-Built regexp marshal sha256 HasStyle cfg models previous now c ws built
          (cfg.compat.think_style, refl, validate-style parse_url compiles cfg accepted)
          (overrides-Closed cfg.models.overrides overrides)
          (aliases-Closed cfg.models.aliases aliases) in
      let (k, there) =
        resolve-Listed c (Built-Leads HasStyle cfg models f c b) requested e resolved in
      (lookup-AllEntries _ k e c.by_name b.entries there).0.behaves

  -- In a configuration that `Validate` accepts for serving, where `Build` makes a catalog and the name
  -- that a client asks for resolves in it: `Thinking` fails only for a value that is no truth value, no
  -- level and not nil, or, with strict capabilities, for a reasoning to be shown by a model that is
  -- known not to think; else the reasoning is shown unless the value, which is the entry's where the
  -- client gives none, is false, and the parameters are none, the template's flag with the same truth
  -- value, or an effort, which is not `omit` where the reasoning is hidden.
  pub resolve-Thinks :
      (previous : Option Catalog) (now : Time) (c : Catalog) (ws : List Warning) (requested : Bytes)
      (e : Entry) (request : Value)
      → validate parse_url compiles cfg serve_profile ≡ ok tt
      → build regexp marshal sha256 cfg models previous now ≡ ok (c, ws)
      → resolve (some c) requested ≡ ok e
      → Thinks (inherited request e.think) e cfg.compat (thinking request e cfg.compat)
  resolve-Thinks previous now c ws requested e request accepted built resolved =
      let (s, own, styled) =
        resolve-HasStyle previous now c ws requested e accepted built resolved in
      let used = ap (λ (o : Option Bytes). given_or o cfg.compat.think_style) own in
      thinking-Thinks request e cfg.compat (ap (contains styles) used ∙ styled)
