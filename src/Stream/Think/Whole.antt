-- ===== src/Stream/Think/Whole.antt =====
-- A whole response: every chunk is fed, and then `Finish` is called.
use ollame.Prelude.{
  ◌<◌, ◌≡◌, inl, inr, refl, sym, ◌∙◌, ap, Bool, true, false, none, some, List, [], ◌∷◌, ◌++◌, arith,
  append-nil, Bytes, cut, cut-length, length, flatten, Bool-cases, Option-cases, starts_with,
}
use ollame.Stream.{Emit}
use ollame.Stream.Think.{Text, ThinkSplitter, Outcome, new_think_splitter, tag_of, feed, finish}
use ollame.Stream.Think.Chunks.{gather, split, rest, piece, join, feed-Keeps, output-gather}
use ollame.Stream.Think.Bounds.{IsValid, feed-IsValid}

-- The next call, or the error of the one before.
abbrev pub and_then : {S : Type 0} → (ThinkSplitter → S → Outcome S) → Outcome S → Outcome S
and_then next (s, w, none) = next s w
and_then next (s, w, some e) = (s, w, some e)

abbrev pub feed_all : {S : Type 0} → Emit Text S → List Bytes → ThinkSplitter → S → Outcome S
feed_all emit [] s w = (s, w, none)
feed_all emit (x ∷ chunks) s w = and_then (feed_all emit chunks) (feed emit s x w)

abbrev pub run : {S : Type 0} → Emit Text S → Bool → List Bytes → S → Outcome S
run emit initial chunks w =
    and_then (finish emit) (feed_all emit chunks (new_think_splitter initial) w)

abbrev pub nothing : Text
nothing = record { content = []; thinking = [] }

cut_short : (p s : Bytes) → length s < length p → cut p s ≡ none
cut_short p s h = elim (Option-cases (cut p s)) [
  | inl e ↦ e
  | inr ((u, v), e) ↦ absurd (omega (arith, cut-length p s u v e))
]

split_short :
    (inside : Bool) (x : Bytes)
    → length x < length (tag_of inside)
    → split inside x ≡ piece inside x
split_short true x h = rw (cut_short (tag_of true) x h)
split_short false x h = rw (cut_short (tag_of false) x h)

rest_pending : (s : ThinkSplitter) → IsValid s → rest s s.pending ≡ piece s.inside s.pending
rest_pending s v = elim (Bool-cases s.extracted) [
  | inl e ↦ rw (e, (v.once e).0)
  | inr e ↦
      let short : length s.pending < length (tag_of s.inside) = ground (arith, v.begins_tag) in
      rw e (split_short s.inside s.pending short)
]

-- What an outcome owes to its caller: no error, a valid splitter, and the right text when finished.
record Owes (before : Text) (t : Bytes) (o : Outcome Text) : Type 0 where
  no_error : o.2 ≡ none
  valid : IsValid o.0
  same : before ≡ join o.1 (rest o.0 (o.0.pending ++ t))

and_then-Owes :
    (before : Text) (t u : Bytes) (next : ThinkSplitter → Text → Outcome Text) (o : Outcome Text)
    → Owes before t o
    → ((s : ThinkSplitter) (w : Text)
        → IsValid s
        → Owes (join w (rest s (s.pending ++ t))) u (next s w))
    → Owes before u (and_then next o)
and_then-Owes before t u next (s, w, none) h k =
    let g = k s w h.valid in
    record { no_error = g.no_error; valid = g.valid; same = h.same ∙ g.same }
and_then-Owes before t u next (s, w, some e) h k = absurd (ground (arith, h.no_error))

feed_all-Owes :
    (chunks : List Bytes) (s : ThinkSplitter) (w : Text)
    → IsValid s
    → Owes (join w (rest s (s.pending ++ flatten chunks))) [] (feed_all gather chunks s w)
feed_all-Owes [] s w v = record { no_error = refl; valid = v; same = refl }
feed_all-Owes (x ∷ chunks) s w v =
    let k = feed-Keeps s x (flatten chunks) w in
    and_then-Owes _ (flatten chunks) [] (feed_all gather chunks) (feed gather s x w)
      (record { no_error = k.0; valid = feed-IsValid gather s x w v; same = k.1 })
      (λ s' w' v'. feed_all-Owes chunks s' w' v')

finish-gather :
    (s : ThinkSplitter) (w : Text)
    → (finish gather s w).2 ≡ none × ((finish gather s w).1 ≡ join w (piece s.inside s.pending))
unfolding finish
finish-gather s w = rw (output-gather s.inside s.extracted [] s.pending w) (refl, refl)

and_then_ok :
    (next : ThinkSplitter → Text → Outcome Text) (o : Outcome Text)
    → o.2 ≡ none
    → and_then next o ≡ next o.0 o.1
and_then_ok next (s, w, none) h = refl
and_then_ok next (s, w, some e) h = absurd (ground arith)

new-IsValid : (initial : Bool) → IsValid (new_think_splitter initial)
unfolding starts_with
new-IsValid true = record { begins_tag = refl; once = λ e. cc }
new-IsValid false = record { begins_tag = refl; once = λ e. cc }

-- However the response is cut into chunks, the splitter gives the thinking and the content of
-- the whole text, and no error: the block runs from the first opening tag (or from the start, if
-- the text begins inside) to the first closing tag behind it, and all other text is content.
pub run-split :
    (initial : Bool) (chunks : List Bytes)
    → (run gather initial chunks nothing).2 ≡ none
      × ((run gather initial chunks nothing).1 ≡ split initial (flatten chunks))
run-split initial chunks =
    let o = feed_all gather chunks (new_think_splitter initial) nothing in
    let owes = feed_all-Owes chunks (new_think_splitter initial) nothing (new-IsValid initial) in
    let ended = finish-gather o.0 o.1 in
    rw (and_then_ok (finish gather) o owes.no_error) (
      ended.0,
      ended.1
          ∙ ap (join o.1)
              (sym (ap (rest o.0) (append-nil o.0.pending) ∙ rest_pending o.0 owes.valid))
          ∙ sym owes.same,
    )
