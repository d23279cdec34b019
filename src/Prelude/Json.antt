-- ===== src/Prelude/Json.antt =====
-- What the program uses of `encoding/json` on texts: `Valid`, `Compact` and the encoding of strings.
-- The scanner is the package's own state machine, with its stack and its bound on the depth.
use Prim.Native.Nat.{ℕ, zero, suc}
use mathlib.Core.Bool.{Bool, true, false, ◌&&◌, ◌||◌}
use mathlib.Core.List.{List, [], ◌∷◌}
use mathlib.Core.Option
use mathlib.Core.Option.{Option, none, some}
use ollame.Prelude.Tests.{leb, ltb, ◌==◌, if◌then◌else◌}
use ollame.Prelude.Lists.{length}
use ollame.Prelude.Texts.{Bytes, codes}

-- `scanner.step`; a literal keeps the bytes that are missing, an escape the missing digits.
pub data State : Type 0 where
  begin_value begin_value_or_empty begin_string_or_empty begin_string : State
  in_string in_string_esc end_value end_top : State
  in_string_esc_u : ℕ → State
  neg digits leading_zero dot dot_digits exponent exponent_sign exponent_digits : State
  literal : Bytes → State

-- `scanner.parseState`
pub data Parse : Type 0 where
  object_key object_value array_value : Parse

-- The next state and stack, and whether `Compact` keeps the byte.
abbrev pub Step : Type 0
Step = Option (State × List Parse × Bool)

is_space : ℕ → Bool
is_space c = c == 32 || c == 9 || c == 13 || c == 10

is_digit : ℕ → Bool
is_digit c = leb b'0' c && leb c b'9'

is_hex : ℕ → Bool
unfolding is_digit
is_hex c = is_digit c || (leb b'a' c && leb c b'f') || (leb b'A' c && leb c b'F')

abbrev keep : State → List Parse → Step
keep s stack = some (s, stack, true)

abbrev skip : State → List Parse → Step
skip s stack = some (s, stack, false)

-- `pushParseState` with `maxNestingDepth`
push : State → Parse → List Parse → Step
push s p stack = if leb (length (p ∷ stack)) 10000 then keep s (p ∷ stack) else none

pop : List Parse → Step
pop [] = keep end_top []
pop (p ∷ stack) = keep end_value (p ∷ stack)

step_end : List Parse → ℕ → Step
unfolding is_space pop
step_end [] c = if is_space c then skip end_top [] else none
step_end (object_key ∷ stack) c =
    if is_space c
    then skip end_value (object_key ∷ stack)
    else if c == b':'
    then keep begin_value (object_value ∷ stack)
    else none
step_end (object_value ∷ stack) c =
    if is_space c
    then skip end_value (object_value ∷ stack)
    else if c == b','
    then keep begin_string (object_key ∷ stack)
    else if c == b'}'
    then pop stack
    else none
step_end (array_value ∷ stack) c =
    if is_space c
    then skip end_value (array_value ∷ stack)
    else if c == b','
    then keep begin_value (array_value ∷ stack)
    else if c == b']'
    then pop stack
    else none

step_value : List Parse → ℕ → Step
unfolding is_space push is_digit
step_value stack c =
    if is_space c
    then skip begin_value stack
    else if c == b'{'
    then push begin_string_or_empty object_key stack
    else if c == b'['
    then push begin_value_or_empty array_value stack
    else if c == b'"'
    then keep in_string stack
    else if c == b'-'
    then keep neg stack
    else if c == b'0'
    then keep leading_zero stack
    else if is_digit c
    then keep digits stack
    else if c == b't'
    then keep (literal (codes "rue")) stack
    else if c == b'f'
    then keep (literal (codes "alse")) stack
    else if c == b'n'
    then keep (literal (codes "ull")) stack
    else none

step_string : State → List Parse → ℕ → Step
unfolding is_space
step_string s stack c =
    if is_space c then skip s stack else if c == b'"' then keep in_string stack else none

is_escape : ℕ → Bool
is_escape c =
    c == b'b'
    || c == b'f'
    || c == b'n'
    || c == b'r'
    || c == b't'
    || c == b'\\'
    || c == b'/'
    || c == b'"'

-- `state0`
step_zero : List Parse → ℕ → Step
unfolding step_end
step_zero stack c =
    if c == b'.'
    then keep dot stack
    else if c == b'e' || c == b'E'
    then keep exponent stack
    else step_end stack c

step_sign : List Parse → ℕ → Step
unfolding is_digit
step_sign stack c = if is_digit c then keep exponent_digits stack else none

-- A `}` behind `{`: the pair that was expected may be missing.
close_empty : List Parse → ℕ → Step
unfolding step_end
close_empty [] c = none
close_empty (p ∷ stack) c = step_end (object_value ∷ stack) c

step : State → List Parse → ℕ → Step
unfolding is_space is_digit is_hex step_value step_end step_string step_zero step_sign is_escape
    close_empty
step begin_value stack c = step_value stack c
step begin_value_or_empty stack c =
    if is_space c
    then skip begin_value_or_empty stack
    else if c == b']'
    then step_end stack c
    else step_value stack c
step begin_string_or_empty stack c =
    if c == b'}' then close_empty stack c else step_string begin_string_or_empty stack c
step begin_string stack c = step_string begin_string stack c
step in_string stack c =
    if c == b'"'
    then keep end_value stack
    else if c == b'\\'
    then keep in_string_esc stack
    else if ltb c 32
    then none
    else keep in_string stack
step in_string_esc stack c =
    if is_escape c
    then keep in_string stack
    else if c == b'u'
    then keep (in_string_esc_u 3) stack
    else none
step (in_string_esc_u zero) stack c = if is_hex c then keep in_string stack else none
step (in_string_esc_u (suc n)) stack c = if is_hex c then keep (in_string_esc_u n) stack else none
step neg stack c =
    if c == b'0' then keep leading_zero stack else if is_digit c then keep digits stack else none
step digits stack c = if is_digit c then keep digits stack else step_zero stack c
step leading_zero stack c = step_zero stack c
step dot stack c = if is_digit c then keep dot_digits stack else none
step dot_digits stack c =
    if is_digit c
    then keep dot_digits stack
    else if c == b'e' || c == b'E'
    then keep exponent stack
    else step_end stack c
step exponent stack c =
    if c == b'+' || c == b'-' then keep exponent_sign stack else step_sign stack c
step exponent_sign stack c = step_sign stack c
step exponent_digits stack c = if is_digit c then keep exponent_digits stack else step_end stack c
step (literal []) stack c = step_end stack c
step (literal (l ∷ [])) stack c = if c == l then keep end_value stack else none
step (literal (l ∷ m ∷ rest)) stack c = if c == l then keep (literal (m ∷ rest)) stack else none
step end_value stack c = step_end stack c
step end_top stack c = if is_space c then skip end_top stack else none

-- `scanner.eof`: a space ends a number at the top.
at_end : Step → Option Bytes
at_end (some (end_top, _, _)) = some []
at_end _ = none

scan_eof : State → List Parse → Option Bytes
unfolding step at_end
scan_eof end_top stack = some []
scan_eof s stack = at_end (step s stack 32)

-- The text without the spaces between its tokens.
scan : State → List Parse → Bytes → Option Bytes
unfolding step scan_eof
scan s stack [] = scan_eof s stack
scan s stack (c ∷ text) = elim (step s stack c) [
  | none ↦ none
  | some (s', stack', kept) ↦
      Option.map (λ rest. if kept then c ∷ rest else rest) (scan s' stack' text)
]

-- `json.Compact`
unfoldable pub compact : Bytes → Option Bytes
unfolding scan
compact text = scan begin_value [] text

-- `json.Valid`
unfoldable pub valid : Bytes → Bool
unfolding compact
valid text = elim (compact text) [ none ↦ false | some _ ↦ true ]
