-- ===== src/Stream.antt =====
-- internal/stream: what the files of the package share.
pub mod Think
pub mod Tools
pub mod Sse
pub mod Decode
pub mod Assemble
use ollame.Prelude.{Bytes, Option}

-- The package's errors. `stopped` is an error of the caller's emit function, `eof` is `io.EOF`;
-- `out_of_fuel` belongs to the model only.
pub data Failure : Type 0 where
  limit malformed unexpected_eof eof tool_arguments out_of_fuel : Failure
  stopped remote : Bytes → Failure

-- An emit function with its state, which it may change even where it fails.
abbrev pub Emit : Type 0 → Type 0 → Type 0
Emit T S = T → S → S × Option Failure
