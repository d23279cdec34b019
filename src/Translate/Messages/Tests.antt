-- ===== src/Translate/Messages/Tests.antt =====
-- Runs of the translation of conversations.
use ollame.Prelude.{
  ◌≡◌, refl, false, some, none, List, [], ◌∷◌, String, codes, bytes_eq, contains, insert, lookup,
  starts_with, pos, ok,
}
use ollame.Prelude.Utf8.{quote}
use ollame.Stream.Tools.{ToolCall}
use ollame.Translate.Messages.{Message, Settings, OpenAiMessage, OpenAiToolCall, MessageResult}
use ollame.Translate.Messages.Waiting.{settle}
use ollame.Translate.Messages.Convert.Contract.{messages-settle}
use ollame.Translate.Messages.Convert.{messages}

abbrev settings : Settings
settings = record {
  entry_sort_messages = none;
  system = codes "s";
  no_vision = false;
  sort_model_messages = false;
  max_images = pos 1;
  strict_capabilities = false;
  history_thinking = codes "drop";
  orphan_tool_result = codes "user_message";
  missing_tool_result = codes "synthesize";
  default_image_mime = codes "image/png";
}

abbrev message : String → String → List ToolCall → String → Message
message role content calls id = record {
  role = codes role;
  content = codes content;
  thinking = [];
  images = [];
  tool_calls = calls;
  tool_name = [];
  tool_call_id = codes id;
}

abbrev call : String → ToolCall
call id = record { id = codes id; index = 0; name = codes "f"; arguments = codes " {}" }

abbrev input : List Message
input =
    message "Assistant" "" (call "a" ∷ call "b" ∷ []) ""
    ∷ message "tool" "r" [] "b"
    ∷ message "user" "u" [] ""
    ∷ []

abbrev plain_message : String → String → String → OpenAiMessage
plain_message role content id = record {
  role = codes role;
  content = codes content;
  reasoning_content = [];
  tool_calls = [];
  tool_call_id = codes id;
}

abbrev outgoing : String → OpenAiToolCall
outgoing id = record { id = codes id; name = codes "f"; arguments = codes "{}" }

-- The call `a` has no result, so one is put in before the user's message.
abbrev result : MessageResult
result = record {
  messages =
      plain_message "system" "\"s\"" ""
      ∷ record (plain_message "assistant" "null" "") {
        tool_calls = outgoing "a" ∷ outgoing "b" ∷ [];
      }
      ∷ plain_message "tool" "\"r\"" "b"
      ∷ plain_message "tool" "\"[no result provided]\"" "a"
      ∷ plain_message "user" "\"u\"" ""
      ∷ [];
  dropped = [];
  synthesized = 1;
}

translated : messages (λ s. s) (λ s. []) settings input ≡ ok result
unfolding messages quote bytes_eq contains insert lookup starts_with
translated = refl

messages-settle_example : settle [] result.messages ≡ some []
messages-settle_example = messages-settle (λ s. s) (λ s. []) settings input result refl translated
