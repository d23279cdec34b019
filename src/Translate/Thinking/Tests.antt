-- ===== src/Translate/Thinking/Tests.antt =====
-- Runs of `Thinking`, and its theorem at a concrete input.
use ollame.Prelude.{
  ◌≡◌, none, [], ◌∷◌, refl, true, false, codes, contains, bytes_eq, lookup, ok, err,
}
use ollame.Config.Types.Defaults.{default_compat}
use ollame.Config.Value.{empty, boolean, text}
use ollame.Config.Names.{valid_think}
use ollame.Catalog.{denied, Entry, no_entry}
use ollame.Translate.Samples.{
  local_url, compiles_all, any_regexp, no_json, no_hash, one_model, config, accepted, at_noon, made,
  built, fast, resolved,
}
use ollame.Translate.Thinking.{thinking, effort_fields, inherited, no_thinking, bad_think}
use ollame.Translate.Thinking.Served.{Thinks, resolve-Thinks}

maximal :
    thinking (text (codes "max")) no_entry default_compat
    ≡ ok (record { fields = effort_fields (codes "high"); visible = true; relaxed = false })
unfolding thinking valid_think contains bytes_eq lookup
maximal = refl

hidden :
    thinking (boolean false) no_entry default_compat
    ≡ ok (record { fields = empty; visible = false; relaxed = false })
unfolding thinking valid_think contains bytes_eq lookup
hidden = refl

no_level : thinking (text (codes "some")) no_entry default_compat ≡ err bad_think
unfolding thinking valid_think contains bytes_eq lookup
no_level = refl

abbrev thoughtless : Entry
thoughtless = record no_entry { knowledge = (codes "thinking", denied) ∷ [] }

strict :
    thinking (boolean true) thoughtless (record default_compat { strict_capabilities = true })
    ≡ err no_thinking
unfolding thinking valid_think contains bytes_eq lookup
strict = refl

resolve-Thinks_example :
    Thinks
      (inherited (boolean false) fast.think)
      fast
      config.compat
      (thinking (boolean false) fast config.compat)
resolve-Thinks_example =
    resolve-Thinks local_url compiles_all any_regexp no_json no_hash config one_model none at_noon
      made.0 made.1 (codes "fast") fast (boolean false) accepted built resolved
