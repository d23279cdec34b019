-- ===== src/Stream/Assemble/Twin.antt =====
-- The aggregate mode against the streaming mode: what the calls of the emit function add up to.
use ollame.Prelude.{
  ℕ, ◌+◌, ◌≤◌, ◌≡◌, inl, inr, refl, sym, ap, arith, Bool, true, false, none, some, List, [], ◌∷◌,
  ◌++◌, append-nil, Bytes, length, length-append, ltb, if◌then◌else◌, pos, ◌≤ℤ◌, ◌-ℤ◌, max_int,
  ltb_ℤ, Bool-cases,
}
use ollame.Stream.{Emit}
use ollame.Stream.Tools.{ToolCall}
use ollame.Stream.Assemble.{
  Output, no_output, Assembly, Assembler, Step, after, count_text, retain, total, hide_thinking,
  send, deliver, output,
}

abbrev pub join : Output → Output → Output
join w o = record {
  content = w.content ++ o.content;
  thinking = w.thinking ++ o.thinking;
  tool_calls = w.tool_calls ++ o.tool_calls;
  logprobs = w.logprobs ++ o.logprobs;
}

-- An emit function that collects all that it is given.
abbrev pub gather : Emit Output Output
gather o w = (join w o, none)

-- The assembler that streams, where the given one aggregates.
abbrev pub twin : Assembler → Assembler
twin a = record a {
  options = record a.options { aggregate = false };
  content = [];
  thinking = [];
  logprobs = [];
  retained = 0;
}

abbrev pub shown : Assembler → Output
shown a = record {
  content = a.content;
  thinking = a.thinking;
  tool_calls = [];
  logprobs = a.logprobs;
}

-- The bounds that an aggregating assembler keeps, on the fields that they read.
pub record Bounded (options : Assembly) (text_bytes retained : ℕ) (content thinking : Bytes)
    (logprobs : List Bytes) : Type 0 where
  pub mode : options.aggregate ≡ true
  pub counted : text_bytes ≤ max_int
  pub sum : retained ≡ length content + length thinking + total logprobs
  pub within : pos retained ≤ℤ options.max_aggregate_bytes

abbrev pub Aggregates : Assembler → Type 0
Aggregates a = Bounded a.options a.text_bytes a.retained a.content a.thinking a.logprobs

-- Where the first step brings no error, the second goes along with it.
abbrev pub Along : {S : Type 0} → Step S → Step Output → Type 0
Along ((a, w), e) o = e ≡ none → Aggregates a × (o ≡ ((twin a, shown a), none))

total-append : (xs ys : List Bytes) → total (xs ++ ys) ≡ total xs + total ys
total-append [] ys = omega arith
total-append (x ∷ xs) ys = omega (arith, total-append xs ys)

pub count_text-Along :
    {S : Type 0} (n : ℕ) (a : Assembler) (w : S)
    → Aggregates a
    → Along (count_text n a w) (count_text n (twin a) (shown a))
unfolding count_text
count_text-Along n a w g = elim (Bool-cases (ltb max_int (a.text_bytes + n))) [
  | inl h ↦ rw h (λ e. absurd cc)
  | inr h ↦ rw h (λ e.
      (record { mode = g.mode; counted = ground arith; sum = g.sum; within = g.within }, refl))
]

pub after-Along :
    {S : Type 0} (next : Assembler → S → Step S) (next' : Assembler → Output → Step Output)
    (o : Step S) (o' : Step Output)
    → Along o o'
    → ((a : Assembler) (w : S) → Aggregates a → Along (next a w) (next' (twin a) (shown a)))
    → Along (after o next) (after o' next')
after-Along next next' ((a, w), none) o' h k = let (g, e) = h refl in rw e (k a w g)
after-Along next next' ((a, w), some x) o' h k = λ e. absurd cc

join_nil : (w : Output) → join w no_output ≡ w
join_nil w =
    rw (append-nil w.content, append-nil w.thinking, append-nil w.tool_calls, append-nil w.logprobs)
      refl

-- Where there is nothing to send the call is left out, which changes nothing.
pub send-gather :
    (c t : Bytes) (k : List ToolCall) (l : List Bytes) (b : Assembler) (w : Output)
    → let o : Output = record { content = c; thinking = t; tool_calls = k; logprobs = l } in
      send gather o b w ≡ ((b, join w o), none)
unfolding send
send-gather [] [] [] [] b w = ap (λ x. ((b, x), none)) (sym (join_nil w))
send-gather [] [] [] (x ∷ l) b w = refl
send-gather [] [] (x ∷ k) l b w = refl
send-gather [] (x ∷ t) k l b w = refl
send-gather (x ∷ c) t k l b w = refl

retain-Along :
    {S : Type 0} (c t : Bytes) (l : List Bytes) (a : Assembler) (w : S)
    → Aggregates a
    → let o : Output = record { content = c; thinking = t; tool_calls = []; logprobs = l } in
      Along (retain o a w) (send gather o (twin a) (shown a))
unfolding retain
retain-Along c t l a w g =
    let additional = length c + length t + total l in
    elim (Bool-cases (ltb_ℤ (a.options.max_aggregate_bytes -ℤ pos a.retained) (pos additional))) [
      | inl h ↦ rw h (λ e. absurd cc)
      | inr h ↦ rw h (λ e. (
        record {
          mode = g.mode;
          counted = g.counted;
          sum = omega (
            arith,
            g.sum,
            length-append a.content c,
            length-append a.thinking t,
            total-append a.logprobs l,
          );
          within = ground (arith, g.within);
        },
        send-gather c t [] l (twin a) (shown a),
      ))
    ]

module _ {S : Type 0} (emit : Emit Output S) where
  deliver-Along :
      (c t : Bytes) (l : List Bytes) (a : Assembler) (w : S)
      → Aggregates a
      → let o : Output = record { content = c; thinking = t; tool_calls = []; logprobs = l } in
        Along (deliver emit o a w) (deliver gather o (twin a) (shown a))
  unfolding deliver
  deliver-Along c t l a w g = by a.options.aggregate a.options.visible g.mode
    where
      o : Output
      o = record { content = c; thinking = t; tool_calls = []; logprobs = l }

      by :
          (m v : Bool)
          → m ≡ true
          → Along
              (if m then retain (hide_thinking v o) a w else send emit (hide_thinking v o) a w)
              (send gather (hide_thinking v o) (twin a) (shown a))
      by true true e = retain-Along c t l a w g
      by true false e = retain-Along c [] l a w g
      by false v e = absurd cc

  pub output-Along :
      (c t : Bytes) (l : List Bytes) (a : Assembler) (w : S)
      → Aggregates a
      → let o : Output = record { content = c; thinking = t; tool_calls = []; logprobs = l } in
        Along (output emit o a w) (output gather o (twin a) (shown a))
  unfolding output
  output-Along c t l a w g =
      let o : Output = record { content = c; thinking = t; tool_calls = []; logprobs = l } in
      after-Along (λ a w. after (count_text (length t) a w) (λ a w. deliver emit o a w))
        (λ a w. after (count_text (length t) a w) (λ a w. deliver gather o a w))
        (count_text (length c) a w) (count_text (length c) (twin a) (shown a))
        (count_text-Along (length c) a w g)
        (λ a w g.
          after-Along (λ a w. deliver emit o a w) (λ a w. deliver gather o a w)
            (count_text (length t) a w) (count_text (length t) (twin a) (shown a))
            (count_text-Along (length t) a w g) (λ a w g. deliver-Along c t l a w g))
