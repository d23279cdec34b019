-- ===== src/Stream/Assemble/Steps.antt =====
-- The operations of an assembler, step by step, in the two modes.
use ollame.Prelude.{
  ℕ, ◌≡◌, refl, sym, ap, ap₂, ◌∙◌, Bool, true, false, not, ◌||◌, Option, none, some, List, [], ◌∷◌,
  Bytes, codes, bytes_eq, length, if◌then◌else◌, Result, ok, err,
}
use ollame.Stream.{Failure, Emit}
use ollame.Stream.Think
use ollame.Stream.Think.{Text, ThinkSplitter}
use ollame.Stream.Think.Relates.{Follows, Same, feed-Same, finish-Same}
use ollame.Stream.Tools
use ollame.Stream.Tools.{ToolFragment, ToolCall, ToolAccumulator}
use ollame.Stream.Decode.{Choice, Chunk, Usage}
use ollame.Stream.Assemble.Twin.{
  gather, twin, shown, Aggregates, Along, after-Along, count_text-Along, output-Along,
}
use ollame.Stream.Assemble.{
  or_else, is_zero, send_logprobs, feed_parts, Output, no_output, Assembler, Step, after,
  count_text, output, on_text, with_splitter, feed_content, with_tools, add_tools, feed_logprobs,
  note_reason, note_time, feed_choice, feed_choices, feed, finish_content, note_usage, is_empty,
}

moved : {S : Type 0} (o : Step S) {x y : Step Output} → x ≡ y → Along o x → Along o y
moved ((a, w), e) p h = λ k. let (g, q) = h k in (g, sym p ∙ q)

module _ {S : Type 0} (emit : Emit Output S) where
  abbrev Twins : Assembler × S → Assembler × Output → Type 0
  Twins (a, w) x = Aggregates a × (x ≡ (twin a, shown a))

  on_text-Follows :
      (t : Text) (x : Assembler × S) (y : Assembler × Output)
      → Twins x y
      → Follows (on_text emit) (on_text gather) Twins (on_text emit t x) (on_text gather t y)
  unfolding on_text
  on_text-Follows t (a, w) y (g, q) = rw q (λ e.
      let (h, r) = output-Along emit t.content t.thinking [] a w g e in
      (ap (λ o. o.1) r, (h, ap (λ o. o.0) r)))

  with_splitter-Along :
      (o : Think.Outcome (Assembler × S)) (o' : Think.Outcome (Assembler × Output))
      → Same (on_text emit) (on_text gather) Twins o o'
      → Along (with_splitter o) (with_splitter o')
  with_splitter-Along (s, (a, w), e) (s', x, e') h =
      λ k. let (p, q, (g, r)) = h k in (g, rw (p, q, r) refl)

  feed_content-Along :
      (s : Option ThinkSplitter) (content : Bytes) (a : Assembler) (w : S)
      → Aggregates a
      → Along (feed_content emit s content a w) (feed_content gather s content (twin a) (shown a))
  unfolding feed_content
  feed_content-Along none content a w g = output-Along emit content [] [] a w g
  feed_content-Along (some s) content a w g =
      with_splitter-Along (Think.feed (on_text emit) s content (a, w))
        (Think.feed (on_text gather) s content (twin a, shown a))
        (feed-Same (on_text emit) (on_text gather) Twins on_text-Follows s content (a, w)
          (twin a, shown a) (g, refl))

  with_tools-Along :
      (a : Assembler) (w : S) (o : ToolAccumulator × Option Failure)
      → Aggregates a
      → Along (with_tools a w o) (with_tools (twin a) (shown a) o)
  with_tools-Along a w (tools, none) g = λ e. (g, refl)
  with_tools-Along a w (tools, some x) g = λ e. absurd cc

  add_tools-Along :
      (parts : List ToolFragment) (a : Assembler) (w : S)
      → Aggregates a
      → Along (add_tools emit parts a w) (add_tools gather parts (twin a) (shown a))
  unfolding add_tools
  add_tools-Along [] a w g = λ e. (g, refl)
  add_tools-Along (part ∷ parts) a w g =
      let size = length part.arguments in
      after-Along
        (λ a w. after (with_tools a w (Tools.add a.tools part)) (λ a w. add_tools emit parts a w))
        (λ a w. after (with_tools a w (Tools.add a.tools part)) (λ a w. add_tools gather parts a w))
        (count_text size a w) (count_text size (twin a) (shown a)) (count_text-Along size a w g)
        (λ a w g.
          after-Along (λ a w. add_tools emit parts a w) (λ a w. add_tools gather parts a w)
            (with_tools a w (Tools.add a.tools part))
            (with_tools (twin a) (shown a) (Tools.add a.tools part))
            (with_tools-Along a w (Tools.add a.tools part) g)
            (λ a w g. add_tools-Along parts a w g))

  pub finish_content-Along :
      (s : Option ThinkSplitter) (a : Assembler) (w : S)
      → Aggregates a
      → Along (finish_content emit s a w) (finish_content gather s (twin a) (shown a))
  unfolding finish_content
  finish_content-Along none a w g = λ e. (g, refl)
  finish_content-Along (some s) a w g =
      with_splitter-Along (Think.finish (on_text emit) s (a, w))
        (Think.finish (on_text gather) s (twin a, shown a))
        (finish-Same (on_text emit) (on_text gather) Twins on_text-Follows s (a, w)
          (twin a, shown a) (g, refl))

  -- What the chunk itself says does not touch the fields that differ.
  record Noted (a b c : Assembler) : Type 0 where
    fine : Aggregates b
    same : c ≡ twin b
    sent : shown b ≡ shown a

  note_reason-Noted :
      (r : Option Bytes) (a : Assembler)
      → Aggregates a
      → Noted a (note_reason r a) (note_reason r (twin a))
  unfolding note_reason
  note_reason-Noted none a g = record { fine = g; same = refl; sent = refl }
  note_reason-Noted (some r) a g = record { fine = g; same = refl; sent = refl }

  note_time-Noted :
      (b : Bool) (now : ℕ) (a : Assembler)
      → Aggregates a
      → Noted a (note_time b now a) (note_time b now (twin a))
  unfolding note_time
  note_time-Noted false now a g = record { fine = g; same = refl; sent = refl }
  note_time-Noted true now a g = record { fine = g; same = refl; sent = refl }

  module _ (probabilities : Bytes → Result Failure (List Bytes)) where
    feed_logprobs-Along :
        (raw : Bytes) (a : Assembler) (w : S)
        → Aggregates a
        → Along
            (feed_logprobs emit probabilities raw a w)
            (feed_logprobs gather probabilities raw (twin a) (shown a))
    unfolding feed_logprobs send_logprobs
    feed_logprobs-Along raw a w g =
        by (is_empty raw || bytes_eq raw (codes "null")) (probabilities raw)
      where
        by :
            (b : Bool) (r : Result Failure (List Bytes))
            → Along
                (if b then ((a, w), none) else send_logprobs emit r a w)
                (if b then ((twin a, shown a), none) else send_logprobs gather r (twin a) (shown a))
        by true r = λ e. (g, refl)
        by false (err e) = λ e. absurd cc
        by false (ok values) = output-Along emit [] [] values a w g

    feed_parts-Along :
        (choice : Choice) (content reasoning : Bytes) (a : Assembler) (w : S)
        → Aggregates a
        → Along
            (feed_parts emit probabilities choice content reasoning a w)
            (feed_parts gather probabilities choice content reasoning (twin a) (shown a))
    unfolding feed_parts
    feed_parts-Along choice content reasoning a w g =
        after-Along (texts emit) (texts gather)
          (output emit (record no_output { thinking = reasoning }) a w)
          (output gather (record no_output { thinking = reasoning }) (twin a) (shown a))
          (output-Along emit [] reasoning [] a w g)
          (λ a w g.
            after-Along (tools emit) (tools gather) (feed_content emit a.splitter content a w)
              (feed_content gather a.splitter content (twin a) (shown a))
              (feed_content-Along a.splitter content a w g)
              (λ a w g.
                after-Along (probs emit) (probs gather) (add_tools emit choice.delta.tool_calls a w)
                  (add_tools gather choice.delta.tool_calls (twin a) (shown a))
                  (add_tools-Along choice.delta.tool_calls a w g)
                  (λ a w g. feed_logprobs-Along choice.logprobs a w g)))
      where
        probs : {T : Type 0} → Emit Output T → Assembler → T → Step T
        probs f a w = feed_logprobs f probabilities choice.logprobs a w

        tools : {T : Type 0} → Emit Output T → Assembler → T → Step T
        tools f a w = after (add_tools f choice.delta.tool_calls a w) (probs f)

        texts : {T : Type 0} → Emit Output T → Assembler → T → Step T
        texts f a w = after (feed_content f a.splitter content a w) (tools f)

    feed_choice-Along :
        (choice : Choice) (now : ℕ) (a : Assembler) (w : S)
        → Aggregates a
        → Along
            (feed_choice emit probabilities choice now a w)
            (feed_choice gather probabilities choice now (twin a) (shown a))
    unfolding feed_choice
    feed_choice-Along choice now a w g =
        let delta = choice.delta in
        let content = or_else delta.content choice.text in
        let reasoning = or_else delta.reasoning_content delta.reasoning in
        let b =
          not (is_empty content) || not (is_empty reasoning) || not (is_empty delta.tool_calls) in
        let n = note_reason-Noted choice.finish_reason a g in
        let m = note_time-Noted b now (note_reason choice.finish_reason a) n.fine in
        let same = ap (note_time b now) n.same ∙ m.same in
        moved
          (feed_parts emit probabilities choice content reasoning
            (note_time b now (note_reason choice.finish_reason a)) w)
          (ap₂ (feed_parts gather probabilities choice content reasoning) (sym same)
            (m.sent ∙ n.sent))
          (feed_parts-Along choice content reasoning
            (note_time b now (note_reason choice.finish_reason a)) w m.fine)

    feed_choices-Along :
        (choices : List Choice) (now : ℕ) (a : Assembler) (w : S)
        → Aggregates a
        → Along
            (feed_choices emit probabilities choices now a w)
            (feed_choices gather probabilities choices now (twin a) (shown a))
    unfolding feed_choices
    feed_choices-Along [] now a w g = λ e. (g, refl)
    feed_choices-Along (choice ∷ choices) now a w g =
        after-Along (λ a w. feed_choices emit probabilities choices now a w)
          (λ a w. feed_choices gather probabilities choices now a w)
          (if is_zero choice.index
            then feed_choice emit probabilities choice now a w
            else ((a, w), none))
          (if is_zero choice.index
            then feed_choice gather probabilities choice now (twin a) (shown a)
            else ((twin a, shown a), none))
          (skipped (is_zero choice.index)) (λ a w g. feed_choices-Along choices now a w g)
      where
        skipped :
            (b : Bool)
            → Along (if b then feed_choice emit probabilities choice now a w else ((a, w), none)) (
                if b
                then feed_choice gather probabilities choice now (twin a) (shown a)
                else ((twin a, shown a), none))
        skipped true = feed_choice-Along choice now a w g
        skipped false = λ e. (g, refl)

    pub feed-Along :
        (chunk : Chunk) (now : ℕ) (a : Assembler) (w : S)
        → Aggregates a
        → Along
            (feed emit probabilities chunk now a w)
            (feed gather probabilities chunk now (twin a) (shown a))
    unfolding feed
    feed-Along chunk now a w g = noted chunk.usage
      where
        noted :
            (u : Option Usage)
            → Along (feed_choices emit probabilities chunk.choices now (note_usage u a) w) (
                feed_choices gather probabilities chunk.choices now
                  (note_usage u (twin a))
                  (shown a))
        noted none = feed_choices-Along chunk.choices now a w g
        noted (some u) = feed_choices-Along chunk.choices now (record a { usage = some u }) w g
