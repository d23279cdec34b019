-- ===== src/Translate/Thinking.antt =====
-- internal/translate/options.go: `Thinking`. A value of type `any` that is nil is null.
pub mod Served
mod Tests
use ollame.Prelude.{
  Bool, true, false, not, ◌&&◌, Option, none, some, Bytes, codes, bytes_eq, Result, ok, err,
  if◌then◌else◌,
}
use ollame.Config.Types.{Compat, Behavior}
use ollame.Config.Value.{Value, Fields, empty, field, boolean, text, object}
use ollame.Config.Names.{valid_think}
use ollame.Catalog.{Entry, Knowledge, denied}
use ollame.Catalog.Entries.{knowledge_of}

pub data ThinkError : Type 0 where
  bad_think no_thinking bad_style : ThinkError

-- The mapped parameters, whether the reasoning is shown, and the warning.
pub record Thought : Type 0 where
  pub fields : Fields
  pub visible : Bool
  pub relaxed : Bool

-- `if value == nil { value = entry.Think }`
abbrev pub inherited : Value → Value → Value
inherited Value.null think = think
inherited v think = v

abbrev pub is_visible : Value → Bool
is_visible (boolean b) = b
is_visible _ = true

abbrev is_nil : Value → Bool
is_nil Value.null = true
is_nil _ = false

abbrev pub is_denied : Knowledge → Bool
is_denied denied = true
is_denied _ = false

abbrev pub given_or : Option Bytes → Bytes → Bytes
given_or none s = s
given_or (some s) _ = s

abbrev pub template_fields : Bool → Fields
template_fields visible =
    field (codes "chat_template_kwargs")
      (object (field (codes "enable_thinking") (boolean visible) empty)) empty

abbrev pub effort_fields : Bytes → Fields
effort_fields effort = field (codes "reasoning_effort") (text effort) empty

-- The effort of a visible reasoning.
effort_of : Behavior → Compat → Value → Bytes
effort_of b cfg (text level) =
    if bytes_eq level (codes "max") then given_or b.think_max cfg.think_max else level
effort_of b cfg _ = given_or b.think_on cfg.think_on

by_effort : Behavior → Compat → Value → Thought
unfolding effort_of
by_effort b cfg v =
    let off = given_or b.think_off cfg.think_off in
    if is_visible v
    then record { fields = effort_fields (effort_of b cfg v); visible = true; relaxed = false }
    else record {
      fields = if bytes_eq off (codes "omit") then empty else effort_fields off;
      visible = false;
      relaxed = false;
    }

-- The switch on the style.
by_style : Bytes → Behavior → Compat → Value → Result ThinkError Thought
unfolding by_effort
by_style style b cfg v =
    if bytes_eq style (codes "none")
    then ok (record { fields = empty; visible = is_visible v; relaxed = false })
    else if bytes_eq style (codes "chat_template_kwargs")
    then ok (record {
      fields = template_fields (is_visible v);
      visible = is_visible v;
      relaxed = false;
    })
    else if bytes_eq style (codes "reasoning_effort")
    then ok (by_effort b cfg v)
    else err bad_style

-- `Thinking`
unfoldable pub thinking : Value → Entry → Compat → Result ThinkError Thought
unfolding by_style valid_think knowledge_of
thinking request e cfg =
    let v = inherited request e.think in
    if not (valid_think v)
    then err bad_think
    else if is_nil v
    then ok (record { fields = empty; visible = is_visible v; relaxed = false })
    else if is_visible v && is_denied (knowledge_of e.knowledge (codes "thinking"))
    then (if cfg.strict_capabilities
        then err no_thinking
        else ok (record { fields = empty; visible = is_visible v; relaxed = true }))
    else by_style (given_or e.behavior.think_style cfg.think_style) e.behavior cfg v
