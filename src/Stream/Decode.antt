-- ===== src/Stream/Decode.antt =====
-- internal/stream/decode.go: the decoded chunks of a response.
use ollame.Prelude.{Option, List, Bytes, ℤ}
use ollame.Stream.Tools.{ToolFragment}

pub record Delta : Type 0 where
  pub role : Bytes
  pub content : Bytes
  pub reasoning_content : Bytes
  pub reasoning : Bytes
  pub tool_calls : List ToolFragment

-- `logprobs` is the raw text, `[]` where the field is missing.
pub record Choice : Type 0 where
  pub index : ℤ
  pub delta : Delta
  pub text : Bytes
  pub finish_reason : Option Bytes
  pub logprobs : Bytes

-- Pointers are options, that to the details and that to the count in them.
pub record Usage : Type 0 where
  pub prompt_tokens : ℤ
  pub completion_tokens : ℤ
  pub prompt_tokens_details : Option (Option ℤ)

pub record Chunk : Type 0 where
  pub choices : List Choice
  pub usage : Option Usage
