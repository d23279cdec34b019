-- ===== src/Translate/Messages/Convert.antt =====
-- internal/translate/messages.go: the loop over the messages. SHA-256 and
-- `http.DetectContentType` are arguments.
pub mod Whole
pub mod Contract
use ollame.Prelude.{
  ℕ, zero, suc, ◌+◌, ◌/◌, ◌%◌, ◌^◌, Bool, true, false, not, ◌&&◌, ◌||◌, none, some, List, [], ◌∷◌,
  ◌++◌, Bytes, codes, bytes_eq, starts_with, to_lower, contains, length, take, ltb, if◌then◌else◌,
  Result, ok, err, ◌>>=◌,
}
use ollame.Prelude.Json.{compact}
use ollame.Prelude.Utf8.{trim_space, quote}
use ollame.Prelude.Base64.{decode}
use ollame.Stream.Tools.{ToolCall}
use ollame.Translate.Messages.{
  Reason, no_vision, invalid_image, duplicate_call_id, invalid_arguments, Message, OpenAiToolCall,
  OpenAiMessage, images_non_user, MessageResult, Settings, sort_messages, text_message, survey,
  head_messages, Progress, append_message, flush, tool_message,
}

-- A number as eight bytes, the highest first.
pub big_endian : ℕ → ℕ → Bytes
big_endian zero n = []
big_endian (suc k) n = (n / 256 ^ k) % 256 ∷ big_endian k n

hex_byte : ℕ → Bytes
hex_byte n =
    let digit : ℕ → ℕ = λ d. if ltb d 10 then d + 48 else d + 87 in
    digit (n / 16) ∷ digit (n % 16) ∷ []

pub hex : Bytes → Bytes
unfolding hex_byte
hex [] = []
hex (n ∷ s) = hex_byte n ++ hex s

abbrev pub or_empty_object : Bytes → Bytes
or_empty_object [] = codes "{}"
or_empty_object (c ∷ s) = c ∷ s

abbrev pub has_images : Message → Bool
has_images message = ltb 0 (length message.images)

abbrev pub drop_images : Bool → Message → Progress → Progress
drop_images b message p =
    if b && has_images message
    then record p {
      result = record p.result { dropped = p.result.dropped ++ images_non_user ∷ [] };
    }
    else p

module _ (sha256 : Bytes → Bytes) (detect_content_type : Bytes → Bytes) where
  pub tool_id : ℕ → ℕ → Bytes → Bytes
  unfolding big_endian hex
  tool_id message call name =
      codes "call_" ++ hex (take 12 (sha256 (big_endian 8 message ++ big_endian 8 call ++ name)))

  -- The arguments of a call, without the spaces between their tokens.
  pub call_arguments : Bytes → Result Reason Bytes
  unfolding trim_space compact
  call_arguments arguments =
      let raw = or_empty_object (trim_space arguments) in
      if not (starts_with (codes "{") raw)
      then err invalid_arguments
      else elim (compact raw) [ none ↦ err invalid_arguments | some text ↦ ok text ]

  -- The loop over the calls of an assistant message, with `allIDs`.
  pub map_calls :
      ℕ → ℕ → List ToolCall → List Bytes → Result Reason (List OpenAiToolCall × List Bytes)
  unfolding tool_id call_arguments contains
  map_calls index call_index [] all_ids = ok ([], all_ids)
  map_calls index call_index (call ∷ calls) all_ids =
      let id = if bytes_eq call.id [] then tool_id index call_index call.name else call.id in
      let rest : Result Reason (List OpenAiToolCall × List Bytes) = do
        arguments ← call_arguments call.arguments
        (mapped, ids) ← map_calls index (call_index + 1) calls (id ∷ all_ids)
        ok (record { id = id; name = call.name; arguments = arguments } ∷ mapped, ids)
      in if contains all_ids id then err duplicate_call_id else rest

  abbrev is_image_type : Bytes → Bool
  is_image_type mime =
      bytes_eq mime (codes "image/png")
      || bytes_eq mime (codes "image/jpeg")
      || bytes_eq mime (codes "image/gif")
      || bytes_eq mime (codes "image/webp")
      || bytes_eq mime (codes "image/bmp")

  pub image_url : Bytes → Bytes → Result Reason Bytes
  unfolding decode starts_with
  image_url value fallback =
      if starts_with (codes "data:") value then ok value else elim (decode value) [
        | none ↦ err invalid_image
        | some bytes ↦
            let mime = detect_content_type (take 512 bytes) in
            ok (
              codes "data:"
              ++ (if is_image_type mime then mime else fallback)
              ++ codes ";base64,"
              ++ value)
      ]

  -- The addresses of the images of a message.
  pub image_urls : Bytes → List Bytes → Result Reason (List Bytes)
  unfolding image_url
  image_urls fallback [] = ok []
  image_urls fallback (image ∷ images) = do
    url ← image_url image fallback
    urls ← image_urls fallback images
    ok (url ∷ urls)

  abbrev image_part : Bytes → Bytes
  image_part url =
      codes "{\"type\":\"image_url\",\"image_url\":{\"url\":" ++ quote url ++ codes "}}"

  abbrev text_part : Bytes → List Bytes
  text_part [] = []
  text_part (c ∷ s) = (codes "{\"type\":\"text\",\"text\":" ++ quote (c ∷ s) ++ codes "}") ∷ []

  join_json : List Bytes → Bytes
  join_json [] = []
  join_json (part ∷ []) = part
  join_json (part ∷ next ∷ parts) = part ++ codes "," ++ join_json (next ∷ parts)

  image_parts : List Bytes → List Bytes
  unfolding quote
  image_parts [] = []
  image_parts (url ∷ urls) = image_part url ∷ image_parts urls

  -- The case "user" for a message with images.
  pub user_images : Settings → Message → OpenAiMessage → Result Reason OpenAiMessage
  unfolding image_urls image_parts join_json quote
  user_images cfg message mapped =
      if cfg.strict_capabilities && cfg.no_vision then err no_vision else do
        urls ← image_urls cfg.default_image_mime message.images
        ok (record mapped {
          content =
              codes "[" ++ join_json (text_part message.content ++ image_parts urls) ++ codes "]";
        })

  pub user_message : Settings → Message → OpenAiMessage → Progress → Result Reason Progress
  unfolding user_images
  user_message cfg message mapped p = do
    m ← if has_images message then user_images cfg message mapped else ok mapped
    ok (record p { result = append_message m p.result })

  -- The case "assistant".
  pub assistant_message : Settings → ℕ → Message → OpenAiMessage → Progress → Result Reason Progress
  unfolding map_calls
  assistant_message cfg index message mapped p = do
    (calls, ids) ← map_calls index 0 message.tool_calls p.all_ids
    let m : OpenAiMessage = record mapped {
      reasoning_content =
          if bytes_eq cfg.history_thinking (codes "reasoning_content")
          then message.thinking
          else mapped.reasoning_content;
      tool_calls = calls;
      content =
          if ltb 0 (length calls) && bytes_eq message.content []
          then codes "null"
          else mapped.content;
    }
    ok (record p { result = append_message m p.result; pending = calls; all_ids = ids })

  -- The switch over the role.
  pub by_role : Settings → ℕ → Bytes → Message → Progress → Result Reason Progress
  unfolding user_message assistant_message tool_message text_message
  by_role cfg index role message p =
      let mapped = text_message role message.content in
      let q = drop_images (not (bytes_eq role (codes "user"))) message p in
      if bytes_eq role (codes "user")
      then user_message cfg message mapped q
      else if bytes_eq role (codes "assistant")
      then assistant_message cfg index message mapped q
      else if bytes_eq role (codes "tool")
      then tool_message cfg message mapped q
      else ok (record q { result = append_message mapped q.result })

  -- A round of the second loop.
  pub next_message : Settings → ℕ → Message → Progress → Result Reason Progress
  unfolding by_role flush
  next_message cfg index message p =
      let role = to_lower message.role in
      if sort_messages cfg && bytes_eq role (codes "system")
      then ok (drop_images true message p)
      else by_role cfg index role message
          (if not (bytes_eq role (codes "tool")) then flush cfg p else p)

  pub next_messages : Settings → ℕ → List Message → Progress → Result Reason Progress
  unfolding next_message
  next_messages cfg index [] p = ok p
  next_messages cfg index (message ∷ input) p = do
    q ← next_message cfg index message p
    next_messages cfg (index + 1) input q

  unfoldable pub messages : Settings → List Message → Result Reason MessageResult
  unfolding survey head_messages next_messages flush
  messages cfg input = do
    s ← survey cfg input (record { system_parts = []; has_system = false; image_count = 0 })
    p ← next_messages cfg 0 input (record {
      result = record { messages = head_messages cfg s; dropped = []; synthesized = 0 };
      pending = [];
      consumed = [];
      all_ids = [];
    })
    ok (flush cfg p).result
