-- ===== src/Translate/Messages.antt =====
-- internal/translate/messages.go: a conversation in the terms of the upstream. Roles are read as
-- ASCII. Here the data, the system messages, and how tool results are matched with calls.
mod Tests
pub mod Convert
pub mod Waiting
pub mod Answers
use ollame.Prelude.{
  ℕ, zero, suc, ◌+◌, ◌-◌, ◌*◌, ◌/◌, ◌%◌, ◌^◌, ◌≡◌, Bool, true, false, not, ◌&&◌, ◌||◌, Option, none,
  some, List, [], ◌∷◌, ◌++◌, Bytes, Dict, codes, bytes_eq, starts_with, to_lower, equal_fold,
  contains, lookup, insert, length, take, ltb, leb, ◌==◌, if◌then◌else◌, ℤ, pos, ◌-ℤ◌, ltb_ℤ,
  Result, ok, err, ◌>>=◌,
}
use ollame.Prelude.Json.{compact}
use ollame.Prelude.Utf8.{trim_space, quote}
use ollame.Prelude.Base64.{decode}
use ollame.Stream.Tools.{ToolCall}

pub data Reason : Type 0 where
  too_many_images no_vision invalid_image duplicate_call_id invalid_arguments orphan_result : Reason

pub record Message : Type 0 where
  pub role : Bytes
  pub content : Bytes
  pub thinking : Bytes
  pub images : List Bytes
  pub tool_calls : List ToolCall
  pub tool_name : Bytes
  pub tool_call_id : Bytes

-- The type is always `function`.
pub record OpenAiToolCall : Type 0 where
  pub id : Bytes
  pub name : Bytes
  pub arguments : Bytes

-- `content` is the raw JSON.
pub record OpenAiMessage : Type 0 where
  pub role : Bytes
  pub content : Bytes
  pub reasoning_content : Bytes
  pub tool_calls : List OpenAiToolCall
  pub tool_call_id : Bytes

pub data Dropped : Type 0 where
  images_non_user duplicate_tool_result : Dropped

pub record MessageResult : Type 0 where
  pub messages : List OpenAiMessage
  pub dropped : List Dropped
  pub synthesized : ℕ

-- What is read of the catalog entry and the configuration; `no_vision` says that the entry is
-- known not to see.
pub record Settings : Type 0 where
  pub entry_sort_messages : Option Bool
  pub system : Bytes
  pub no_vision : Bool
  pub sort_model_messages : Bool
  pub max_images : ℤ
  pub strict_capabilities : Bool
  pub history_thinking : Bytes
  pub orphan_tool_result : Bytes
  pub missing_tool_result : Bytes
  pub default_image_mime : Bytes

abbrev pub sort_messages : Settings → Bool
sort_messages cfg = elim cfg.entry_sort_messages [ none ↦ cfg.sort_model_messages | some b ↦ b ]

pub text_message : Bytes → Bytes → OpenAiMessage
unfolding quote
text_message role content = record {
  role = role;
  content = quote content;
  reasoning_content = [];
  tool_calls = [];
  tool_call_id = [];
}

-- `systemParts`, `hasSystem` and `imageCount`
pub record Survey : Type 0 where
  pub system_parts : List Bytes
  pub has_system : Bool
  pub image_count : ℕ

abbrev is_system : Message → Bool
is_system message = equal_fold message.role (codes "system")

-- The first loop.
pub survey : Settings → List Message → Survey → Result Reason Survey
survey cfg [] s = ok s
survey cfg (message ∷ input) s =
    let n = length message.images in
    let rest = survey cfg input (record {
      system_parts =
          if is_system message && sort_messages cfg
          then s.system_parts ++ message.content ∷ []
          else s.system_parts;
      has_system = s.has_system || is_system message;
      image_count = s.image_count + n;
    }) in
    if ltb_ℤ (cfg.max_images -ℤ pos s.image_count) (pos n) then err too_many_images else rest

-- `strings.Join` with an empty line
pub join_parts : List Bytes → Bytes
join_parts [] = []
join_parts (part ∷ []) = part
join_parts (part ∷ next ∷ parts) = part ++ codes "\n\n" ++ join_parts (next ∷ parts)

-- The system message at the head.
pub head_messages : Settings → Survey → List OpenAiMessage
unfolding text_message join_parts
head_messages cfg s =
    (if sort_messages cfg && s.has_system
      then text_message (codes "system") (join_parts s.system_parts) ∷ []
      else [])
    ++ (if not s.has_system && not (bytes_eq cfg.system [])
        then text_message (codes "system") cfg.system ∷ []
        else [])

-- The result so far with `pending`, `consumed` and `allIDs`.
pub record Progress : Type 0 where
  pub result : MessageResult
  pub pending : List OpenAiToolCall
  pub consumed : Dict Bytes
  pub all_ids : List Bytes

abbrev pub is_consumed : Dict Bytes → Bytes → Bool
is_consumed consumed id = elim (lookup id consumed) [ none ↦ false | some _ ↦ true ]

abbrev pub append_message : OpenAiMessage → MessageResult → MessageResult
append_message m r = record r { messages = r.messages ++ m ∷ [] }

abbrev pub no_result : Bytes → OpenAiMessage
no_result id = record (text_message (codes "tool") (codes "[no result provided]")) {
  tool_call_id = id;
}

pub synthesize : Dict Bytes → List OpenAiToolCall → MessageResult → MessageResult
unfolding text_message lookup
synthesize consumed [] r = r
synthesize consumed (call ∷ pending) r = synthesize consumed pending (
    if is_consumed consumed call.id
    then r
    else record (append_message (no_result call.id) r) { synthesized = r.synthesized + 1 })

pub flush : Settings → Progress → Progress
unfolding synthesize
flush cfg p = record p {
  result =
      if bytes_eq cfg.missing_tool_result (codes "synthesize")
      then synthesize p.consumed p.pending p.result
      else p.result;
  pending = [];
}

-- A call of the loops that choose: the first that is not consumed and has the property.
pub choose : (OpenAiToolCall → Bool) → Dict Bytes → List OpenAiToolCall → Option OpenAiToolCall
choose test consumed [] = none
choose test consumed (call ∷ pending) =
    let rest = choose test consumed pending in
    if not (is_consumed consumed call.id) && test call then some call else rest

abbrev or_try : Option OpenAiToolCall → Option OpenAiToolCall → Option OpenAiToolCall
or_try none other = other
or_try (some call) other = some call

pub chosen_call : Message → Dict Bytes → List OpenAiToolCall → Option OpenAiToolCall
unfolding choose
chosen_call message consumed pending =
    or_try
      (choose
        (λ call. not (bytes_eq message.tool_call_id []) && bytes_eq call.id message.tool_call_id)
        consumed pending)
      (or_try
        (choose
          (λ call. not (bytes_eq message.tool_name []) && bytes_eq call.name message.tool_name)
          consumed pending)
        (choose (λ call. true) consumed pending))

pub orphan : Message → OpenAiMessage
unfolding text_message
orphan message =
    let name = if bytes_eq message.tool_name [] then codes "unknown" else message.tool_name in
    text_message (codes "user") (codes "[tool result: " ++ name ++ codes "]\n" ++ message.content)

abbrev pub is_duplicate : Message → Dict Bytes → Bool
is_duplicate message consumed =
    not (bytes_eq message.tool_call_id []) && (elim (lookup message.tool_call_id consumed) [
      | none ↦ false
      | some previous ↦ bytes_eq previous message.content
    ])

pub answer :
    Settings → Message → OpenAiMessage → Progress → Option OpenAiToolCall → Result Reason Progress
unfolding orphan
answer cfg message mapped p none =
    if bytes_eq cfg.orphan_tool_result (codes "error")
    then err orphan_result
    else ok (record p { result = append_message (orphan message) p.result })
answer cfg message mapped p (some call) = ok (record p {
  result = append_message (record mapped { tool_call_id = call.id }) p.result;
  consumed = insert call.id message.content p.consumed;
})

-- The case "tool".
pub tool_message : Settings → Message → OpenAiMessage → Progress → Result Reason Progress
unfolding answer chosen_call lookup insert
tool_message cfg message mapped p =
    if is_duplicate message p.consumed
    then ok (record p {
      result = record p.result { dropped = p.result.dropped ++ duplicate_tool_result ∷ [] };
    })
    else answer cfg message mapped p (chosen_call message p.consumed p.pending)
