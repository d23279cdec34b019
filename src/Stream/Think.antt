-- ===== src/Stream/Think.antt =====
-- internal/stream/think.go: the splitter that takes one thinking block out of streamed text.
mod Tests
pub mod Hold
pub mod Chunks
pub mod Bounds
pub mod Whole
pub mod Relates
use ollame.Prelude.{
  ℕ, zero, suc, ◌+◌, ◌-◌, ◌≡◌, refl, Bool, true, false, Option, none, some, List, [], ◌∷◌, ◌++◌,
  min, Bytes, codes, ends_with, index, length, take, drop, if◌then◌else◌,
}
use ollame.Stream.{Failure, out_of_fuel, Emit}

pub record Text : Type 0 where
  pub content : Bytes
  pub thinking : Bytes

pub record ThinkSplitter : Type 0 where
  pub inside : Bool
  pub extracted : Bool
  pub pending : Bytes

abbrev pub new_think_splitter : Bool → ThinkSplitter
new_think_splitter initial = record { inside = initial; extracted = false; pending = [] }

abbrev pub tag_of : Bool → Bytes
tag_of inside = if inside then codes "</think>" else codes "<think>"

-- The loop `for n := 1; n < len(tag) && n <= len(text); n++`, by the rounds that are left.
hold_from : Bytes → Bytes → ℕ → ℕ → ℕ → ℕ
hold_from tag text zero n hold = hold
hold_from tag text (suc rounds) n hold =
    hold_from tag text rounds (n + 1) (if ends_with (take n tag) text then n else hold)

-- How many bytes at the end of the text are kept back.
pub hold : Bytes → Bytes → ℕ
unfolding hold_from ends_with
hold tag text = hold_from tag text (min (length tag - 1) (length text)) 1 0

-- The fields after a tag was found.
abbrev pub toggle : ThinkSplitter → ThinkSplitter
toggle s =
    if s.inside then record s { inside = false; extracted = true } else record s { inside = true }

-- What `Feed` and `Finish` leave: the splitter, the state of the emit function and the error.
abbrev pub Outcome : Type 0 → Type 0
Outcome S = ThinkSplitter × S × Option Failure

-- A call of `emit`, with the splitter as it stands then.
abbrev pub report : {S : Type 0} → ThinkSplitter → S × Option Failure → Outcome S
report s (w, e) = (s, w, e)

module _ {S : Type 0} (emit : Emit Text S) where
  pub output : ThinkSplitter → Bytes → S → S × Option Failure
  output s [] w = (w, none)
  output s (c ∷ text) w =
      if s.inside
      then emit (record { content = []; thinking = c ∷ text }) w
      else emit (record { content = c ∷ text; thinking = [] }) w

  -- `continue` behind a call of `output`, or the return of its error.
  pub after_output : (S → Outcome S) → ThinkSplitter → S × Option Failure → Outcome S
  after_output next s (w, none) = next w
  after_output next s (w, some e) = (s, w, some e)

  -- A round of the loop, from the result of the search for the tag on.
  pub pass :
      (ThinkSplitter → Bytes → S → Outcome S) → ThinkSplitter → Bytes → Option ℕ → S → Outcome S
  unfolding after_output output
  pass next s text (some at) w =
      after_output (next (toggle s) (drop (at + length (tag_of s.inside)) text)) s
        (output s (take at text) w)
  pass next s text none w =
      let kept = length text - hold (tag_of s.inside) text in
      report (record s { pending = drop kept text }) (output s (take kept text) w)

  -- The loop of `Feed`. Three rounds are enough: two tags at most are passed.
  pub feed_loop : ℕ → ThinkSplitter → Bytes → S → Outcome S
  unfolding pass
  feed_loop zero s text w = (s, w, some out_of_fuel)
  feed_loop (suc rounds) s [] w = (s, w, none)
  feed_loop (suc rounds) s (c ∷ rest) w =
      let text = c ∷ rest in
      let onward = pass (feed_loop rounds) s text (index (tag_of s.inside) text) w in
      if s.extracted then report s (emit (record { content = text; thinking = [] }) w) else onward

  unfoldable pub feed : ThinkSplitter → Bytes → S → Outcome S
  unfolding feed_loop hold index
  feed s text w = feed_loop 3 (record s { pending = [] }) (s.pending ++ text) w

  unfoldable pub finish : ThinkSplitter → S → Outcome S
  unfolding output
  finish s w = report (record s { pending = [] }) (output (record s { pending = [] }) s.pending w)
