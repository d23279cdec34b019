-- ===== src/Catalog/Entries.antt =====
-- internal/catalog/catalog.go: `baseEntry`, with the errors of `Build`.
use ollame.Prelude.{
  ℤ, pos, ltb_ℤ, Bool, true, false, ◌&&◌, ◌||◌, List, [], ◌∷◌, Option, none, some, Bytes, codes,
  bytes_eq, Dict, lookup, insert, index, to_lower, leb, if◌then◌else◌, ◌==◌,
}
use ollame.Config.Types.{Config, Behavior}
use ollame.Config.Value.{Value}
use ollame.Config.Load.{no_behavior}
use ollame.Catalog.{Knowledge, unknown, denied, known, Model, Info, Entry, no_details, zero_time}

pub data BuildError : Type 0 where
  discovery_limit bad_id duplicate_alias exposed_limit bad_glob bad_alias_name : BuildError
  think_initial_without_tags no_fim_template no_metadata : BuildError

-- `strings.Contains (s, substr)`, the part first
unfoldable pub has_part : Bytes → Bytes → Bool
unfolding index
has_part part s = elim (index part s) [ none ↦ false | some _ ↦ true ]

families_known : List Bytes
families_known =
    codes "claude"
    ∷ codes "gpt"
    ∷ codes "gemini"
    ∷ codes "gemma"
    ∷ codes "llama"
    ∷ codes "qwen"
    ∷ codes "mistral"
    ∷ codes "mixtral"
    ∷ codes "deepseek"
    ∷ codes "glm"
    ∷ codes "kimi"
    ∷ codes "minimax"
    ∷ codes "phi"
    ∷ codes "command"
    ∷ codes "nomic-bert"
    ∷ []

first_part : List Bytes → Bytes → Bytes → Bytes
unfolding has_part
first_part [] fallback s = fallback
first_part (p ∷ parts) fallback s = if has_part p s then p else first_part parts fallback s

-- `lower[strings.LastIndex(lower, "/")+1:]`: the text is the leaf so far, and begins again.
leaf_from : Bytes → Bytes → Bytes
leaf_from leaf [] = leaf
leaf_from leaf (c ∷ s) = leaf_from (if c == b'/' then s else leaf) s

numbered_o : Bytes → Bool
numbered_o (a ∷ b ∷ _) = a == b'o' && leb b'0' b && leb b b'9'
numbered_o _ = false

unfoldable pub family_of : Bytes → Bytes
unfolding families_known first_part leaf_from numbered_o
family_of lower =
    if numbered_o (leaf_from lower lower)
    then codes "o"
    else first_part families_known (codes "ollame") lower

context_of : Config → Info → ℤ
context_of cfg info =
    if ltb_ℤ (pos 0) info.max_input_tokens
    then info.max_input_tokens
    else if ltb_ℤ (pos 0) info.max_tokens
    then info.max_tokens
    else cfg.models.default_context_length

-- `entry.Knowledge[capability]`, which is Unknown where the key is missing
unfoldable pub knowledge_of : Dict Knowledge → Bytes → Knowledge
unfolding lookup
knowledge_of m capability = elim (lookup capability m) [ none ↦ unknown | some k ↦ k ]

by_mode : Bytes → Dict Knowledge
by_mode mode =
    if bytes_eq mode (codes "embedding")
    then (codes "embedding", known) ∷ (codes "completion", denied) ∷ []
    else if bytes_eq mode (codes "chat") || bytes_eq mode (codes "completion")
    then (codes "completion", known) ∷ (codes "embedding", denied) ∷ []
    else []

note_support : Bytes → Option Bool → Dict Knowledge → Dict Knowledge
unfolding insert
note_support capability none m = m
note_support capability (some true) m = insert capability known m
note_support capability (some false) m = insert capability denied m

unfoldable pub is_unknown : Knowledge → Bool
is_unknown unknown = true
is_unknown _ = false

unfoldable pub is_known : Knowledge → Bool
is_known known = true
is_known _ = false

-- The loop over the hints: it ends at its first success.
note_hints : List Bytes → Bytes → Dict Knowledge → Dict Knowledge
unfolding has_part is_unknown knowledge_of insert
note_hints [] lower m = m
note_hints (hint ∷ hints) lower m =
    if has_part hint lower && is_unknown (knowledge_of m (codes "embedding"))
    then insert (codes "embedding") known m
    else note_hints hints lower m

embedding_hints : List Bytes
embedding_hints =
    codes "embed"
    ∷ codes "embedding"
    ∷ codes "bge-"
    ∷ codes "e5-"
    ∷ codes "nomic"
    ∷ codes "gte-"
    ∷ []

unfoldable pub base_knowledge : Info → Bytes → Dict Knowledge
unfolding by_mode note_support note_hints embedding_hints
base_knowledge info lower = note_hints embedding_hints lower (
    note_support (codes "thinking") info.supports_reasoning (
      note_support (codes "vision") info.supports_vision
        (note_support (codes "tools") info.supports_tools (by_mode info.mode))))

unfoldable pub base_behavior : Config → Behavior
base_behavior cfg = record no_behavior {
  sort_model_messages = some cfg.compat.sort_model_messages;
  think_style = some cfg.compat.think_style;
  think_on = some cfg.compat.think_on;
  think_off = some cfg.compat.think_off;
  think_max = some cfg.compat.think_max;
  think_tags = some cfg.compat.think_tags;
  think_initial = some cfg.compat.think_initial;
  forward_sampler_extras = some cfg.compat.forward_sampler_extras;
  max_tokens_field = some cfg.upstream.max_tokens_field;
  fim = some cfg.generate.fim;
  fim_template = some cfg.generate.fim_template;
}

-- `baseEntry`
unfoldable pub base_entry : Config → Model → Bytes → Entry
unfolding family_of context_of base_knowledge base_behavior
base_entry cfg model name =
    let lower = to_lower model.id in
    let family = family_of lower in
    record {
      name = name;
      model = name;
      target = model.id;
      modified_at = zero_time;
      size = pos 0;
      digest = [];
      details = record no_details {
        format = cfg.models.format;
        family = family;
        families = family ∷ [];
        context_length = context_of cfg model.info;
        embedding_length = model.info.output_vector_size;
      };
      capabilities = [];
      alias = false;
      system = [];
      options = none;
      think = Value.null;
      behavior = base_behavior cfg;
      knowledge = base_knowledge model.info lower;
      architecture = [];
      provenance = codes "upstream" ∷ [];
      explicit_insert = false;
    }
