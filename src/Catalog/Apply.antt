-- ===== src/Catalog/Apply.antt =====
-- internal/catalog/catalog.go: `apply` and `finish`. The digest of an entry is made by json.Marshal,
-- which may fail, and SHA-256; both are arguments.
pub mod Kept
pub mod Spares
use ollame.Prelude.{
  ℕ, ◌+◌, ◌/◌, ◌%◌, ℤ, Bool, true, false, not, ◌&&◌, ◌||◌, List, [], ◌∷◌, ◌++◌, Option, none, some,
  Bytes, codes, bytes_eq, contains, Dict, insert, ltb, Result, ok, err, ◌>>=◌, if◌then◌else◌,
}
use ollame.Config.Types.{Config, Behavior}
use ollame.Config.Value.{Value, Fields, merge_map}
use ollame.Catalog.{Knowledge, unknown, denied, known, Details, Entry}
use ollame.Catalog.Entries.{
  BuildError, think_initial_without_tags, no_fim_template, no_metadata, knowledge_of, is_unknown,
  is_known,
}

abbrev pub all_capabilities : List Bytes
all_capabilities =
    codes "completion"
    ∷ codes "tools"
    ∷ codes "insert"
    ∷ codes "vision"
    ∷ codes "embedding"
    ∷ codes "thinking"
    ∷ codes "image"
    ∷ codes "audio"
    ∷ []

-- `for _, capability := range … { entry.Knowledge[capability] = … }`
unfoldable pub note_all : Knowledge → List Bytes → Dict Knowledge → Dict Knowledge
note_all k [] m = m
note_all k (c ∷ capabilities) m = note_all k capabilities (insert c k m)

abbrev or_empty : Option (List Bytes) → List Bytes
or_empty none = []
or_empty (some caps) = caps

set_knowledge : Option (List Bytes) → Dict Knowledge → Dict Knowledge
unfolding note_all
set_knowledge none m = m
set_knowledge (some caps) m = note_all known caps (note_all denied all_capabilities m)

unfoldable pub apply_knowledge : Behavior → Dict Knowledge → Dict Knowledge
unfolding set_knowledge note_all
apply_knowledge o m =
    note_all denied (or_empty o.remove_capabilities)
      (note_all known (or_empty o.add_capabilities) (set_knowledge o.capabilities m))

-- A field that is not nil replaces the one before it.
abbrev pub over : {A : Type 0} → Option A → Option A → Option A
over none prior = prior
over (some a) prior = some a

abbrev or_no_fields : Option Fields → Fields
or_no_fields none = Fields.empty
or_no_fields (some m) = m

-- `mergeMap` on maps that may be nil
merge_bodies : Option Fields → Option Fields → Option Fields
merge_bodies prior none = prior
merge_bodies prior (some update) = some (merge_map (or_no_fields prior) update)

-- The loop by reflection over the fields of a `Behavior`, first the override's, then the entry's.
unfoldable pub override_behavior : Behavior → Behavior → Behavior
unfolding merge_bodies
override_behavior o b = record {
  sort_model_messages = over o.sort_model_messages b.sort_model_messages;
  family = over o.family b.family;
  context_length = over o.context_length b.context_length;
  capabilities = over o.capabilities b.capabilities;
  add_capabilities = over o.add_capabilities b.add_capabilities;
  remove_capabilities = over o.remove_capabilities b.remove_capabilities;
  parameter_size = over o.parameter_size b.parameter_size;
  quantization_level = over o.quantization_level b.quantization_level;
  embedding_length = over o.embedding_length b.embedding_length;
  think_style = over o.think_style b.think_style;
  think_on = over o.think_on b.think_on;
  think_off = over o.think_off b.think_off;
  think_max = over o.think_max b.think_max;
  think_tags = over o.think_tags b.think_tags;
  think_initial = over o.think_initial b.think_initial;
  forward_sampler_extras = over o.forward_sampler_extras b.forward_sampler_extras;
  drop_params = over o.drop_params b.drop_params;
  max_tokens_field = over o.max_tokens_field b.max_tokens_field;
  fim = over o.fim b.fim;
  fim_template = over o.fim_template b.fim_template;
  extra_body = merge_bodies b.extra_body o.extra_body;
}

abbrev or_else : {A : Type 0} → Option A → A → A
or_else none a = a
or_else (some b) a = b

abbrev families_over : Option Bytes → List Bytes → List Bytes
families_over none families = families
families_over (some family) families = family ∷ []

unfoldable pub override_details : Behavior → Details → Details
override_details o d = record d {
  family = or_else o.family d.family;
  families = families_over o.family d.families;
  context_length = or_else o.context_length d.context_length;
  embedding_length = or_else o.embedding_length d.embedding_length;
  parameter_size = or_else o.parameter_size d.parameter_size;
  quantization_level = or_else o.quantization_level d.quantization_level;
}

abbrev is_given : Option (List Bytes) → Bool
is_given none = false
is_given (some _) = true

touches_insert : Behavior → Bool
touches_insert o =
    is_given o.capabilities
    || contains (or_empty o.add_capabilities) (codes "insert")
    || contains (or_empty o.remove_capabilities) (codes "insert")

-- `apply`
unfoldable pub apply : Behavior → Entry → Entry
unfolding touches_insert apply_knowledge override_behavior override_details
apply o e = record e {
  explicit_insert = e.explicit_insert || touches_insert o;
  knowledge = apply_knowledge o e.knowledge;
  behavior = override_behavior o e.behavior;
  details = override_details o e.details;
}

abbrev is_true : Option Bool → Bool
is_true none = false
is_true (some b) = b

abbrev is_text : Option Bytes → Bytes → Bool
is_text none t = false
is_text (some s) t = bytes_eq s t

abbrev is_blank : Option Bytes → Bool
is_blank none = true
is_blank (some s) = bytes_eq s []

abbrev fills_in : Option Bytes → Knowledge
fills_in none = unknown
fills_in (some fim) = if bytes_eq fim (codes "off") then unknown else known

-- The capability `insert` follows the mode for filling in, unless a configuration sets it.
unfoldable pub note_insert : Entry → Dict Knowledge
note_insert e =
    if e.explicit_insert
    then e.knowledge
    else insert (codes "insert") (fills_in e.behavior.fim) e.knowledge

-- The loop that collects the advertised capabilities.
unfoldable pub advertised : List Bytes → Dict Knowledge → List Bytes → List Bytes
unfolding knowledge_of is_known is_unknown
advertised defaults m [] = []
advertised defaults m (c ∷ capabilities) =
    let rest = advertised defaults m capabilities in
    if is_known (knowledge_of m c) || (is_unknown (knowledge_of m c) && contains defaults c)
    then c ∷ rest
    else rest

hex_digit : ℕ → ℕ
hex_digit n = if ltb n 10 then b'0' + n else n + 87

-- `hex.EncodeToString`
hex : Bytes → Bytes
unfolding hex_digit
hex [] = []
hex (c ∷ s) = hex_digit (c / 16) ∷ hex_digit (c % 16) ∷ hex s

unfoldable pub settle : Config → Entry → Entry
unfolding note_insert advertised
settle cfg e =
    let knowledge = note_insert e in
    record e {
      knowledge = knowledge;
      architecture =
          if bytes_eq cfg.models.architecture [] then e.details.family else cfg.models.architecture;
      capabilities = advertised cfg.models.default_capabilities knowledge all_capabilities;
    }

module _ (marshal : Entry → Option Bytes) (sha256 : Bytes → Bytes) where
  -- `marshal` is the JSON text of the settled entry's System, Options, Think, Behavior, Details,
  -- Capabilities and Architecture.
  seal : Entry → Result BuildError Entry
  unfolding hex
  seal e = elim (marshal e) [
    | none ↦ err no_metadata
    | some canonical ↦ ok (record e {
      digest = hex (sha256 (codes "ollame" ++ (0 ∷ e.name) ++ (0 ∷ e.target) ++ (0 ∷ canonical)));
    })
  ]

  -- `finish`
  unfoldable pub finish : Config → Entry → Result BuildError Entry
  unfolding seal settle
  finish cfg e =
      if is_true e.behavior.think_initial && not (is_true e.behavior.think_tags)
      then err think_initial_without_tags
      else if is_text e.behavior.fim (codes "template") && is_blank e.behavior.fim_template
      then err no_fim_template
      else seal (settle cfg e)
