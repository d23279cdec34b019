-- ===== src/Stream/Think/Relates.antt =====
-- Two emit functions that do related things make of the splitter related runs.
use ollame.Prelude.{
  ℕ, zero, suc, ◌+◌, ◌≡◌, inl, inr, refl, Bool, true, false, Option, none, some, [], ◌∷◌, ◌++◌,
  Bytes, index, length, take, drop, Bool-cases, ◌-◌, arith, if◌then◌else◌,
}
use ollame.Stream.{Failure, Emit}
use ollame.Stream.Think.{
  Text, ThinkSplitter, Outcome, tag_of, hold, toggle, output, after_output, pass, feed_loop, feed,
  finish,
}

module _ {S S' : Type 0} (emit : Emit Text S) (emit' : Emit Text S') (R : S → S' → Type 0) where
  -- Where the first call returns no error neither does the second, and the states are related.
  abbrev pub Follows : S × Option Failure → S' × Option Failure → Type 0
  Follows (w, e) (w', e') = e ≡ none → (e' ≡ none) × R w w'

  abbrev pub Same : Outcome S → Outcome S' → Type 0
  Same (s, w, e) (s', w', e') = e ≡ none → (s' ≡ s) × (e' ≡ none) × R w w'

  module _ (calls : (t : Text) (w : S) (w' : S') → R w w' → Follows (emit t w) (emit' t w')) where
    output-Follows :
        (s : ThinkSplitter) (u : Bytes) (w : S) (w' : S')
        → R w w'
        → Follows (output emit s u w) (output emit' s u w')
    unfolding output
    output-Follows s [] w w' r = λ e. (refl, r)
    output-Follows s (c ∷ u) w w' r = elim (Bool-cases s.inside) [
      | inl h ↦ rw h (calls _ w w' r)
      | inr h ↦ rw h (calls _ w w' r)
    ]

    after_output-Same :
        (next : S → Outcome S) (next' : S' → Outcome S') (s : ThinkSplitter)
        (o : S × Option Failure) (o' : S' × Option Failure)
        → Follows o o'
        → ((w : S) (w' : S') → R w w' → Same (next w) (next' w'))
        → Same (after_output emit next s o) (after_output emit' next' s o')
    unfolding after_output
    after_output-Same next next' s (w, none) (w', none) f k = k w w' (f refl).1
    after_output-Same next next' s (w, none) (w', some e) f k = absurd (ground arith)
    after_output-Same next next' s (w, some e) (w', _) f k = λ h. absurd cc

    report-Same :
        (s : ThinkSplitter) (o : S × Option Failure) (o' : S' × Option Failure)
        → Follows o o'
        → Same (s, o.0, o.1) (s, o'.0, o'.1)
    report-Same s (w, e) (w', e') f = λ h. (refl, (f h).0, (f h).1)

    either-Same :
        (b : Bool) (x y : Outcome S) (x' y' : Outcome S')
        → Same x x'
        → Same y y'
        → Same (if b then x else y) (if b then x' else y')
    either-Same true x y x' y' h k = h
    either-Same false x y x' y' h k = k

    pass-Same :
        (next : ThinkSplitter → Bytes → S → Outcome S)
        (next' : ThinkSplitter → Bytes → S' → Outcome S') (s : ThinkSplitter) (x : Bytes)
        (o : Option ℕ) (w : S) (w' : S')
        → ((s : ThinkSplitter) (y : Bytes) (w : S) (w' : S')
            → R w w'
            → Same (next s y w) (next' s y w'))
        → R w w'
        → Same (pass emit next s x o w) (pass emit' next' s x o w')
    unfolding pass
    pass-Same next next' s x (some at) w w' k r =
        let y = drop (at + length (tag_of s.inside)) x in
        after_output-Same (next (toggle s) y) (next' (toggle s) y) s (output emit s (take at x) w)
          (output emit' s (take at x) w') (output-Follows s (take at x) w w' r) (k (toggle s) y)
    pass-Same next next' s x none w w' k r =
        let kept = length x - hold (tag_of s.inside) x in
        report-Same (record s { pending = drop kept x }) (output emit s (take kept x) w)
          (output emit' s (take kept x) w') (output-Follows s (take kept x) w w' r)

    feed_loop-Same :
        (rounds : ℕ) (s : ThinkSplitter) (x : Bytes) (w : S) (w' : S')
        → R w w'
        → Same (feed_loop emit rounds s x w) (feed_loop emit' rounds s x w')
    unfolding feed_loop
    feed_loop-Same zero s x w w' r = λ e. absurd cc
    feed_loop-Same (suc rounds) s [] w w' r = λ e. (refl, refl, r)
    feed_loop-Same (suc rounds) s (c ∷ x) w w' r =
        let text : Text = record { content = c ∷ x; thinking = [] } in
        let found = index (tag_of s.inside) (c ∷ x) in
        either-Same s.extracted (s, (emit text w).0, (emit text w).1)
          (pass emit (feed_loop emit rounds) s (c ∷ x) found w)
          (s, (emit' text w').0, (emit' text w').1)
          (pass emit' (feed_loop emit' rounds) s (c ∷ x) found w')
          (report-Same s (emit text w) (emit' text w') (calls text w w' r))
          (pass-Same (feed_loop emit rounds) (feed_loop emit' rounds) s (c ∷ x) found w w'
            (feed_loop-Same rounds) r)

    pub feed-Same :
        (s : ThinkSplitter) (x : Bytes) (w : S) (w' : S')
        → R w w'
        → Same (feed emit s x w) (feed emit' s x w')
    unfolding feed
    feed-Same s x w w' r = feed_loop-Same 3 (record s { pending = [] }) (s.pending ++ x) w w' r

    pub finish-Same :
        (s : ThinkSplitter) (w : S) (w' : S') → R w w' → Same (finish emit s w) (finish emit' s w')
    unfolding finish
    finish-Same s w w' r =
        let q = record s { pending = [] } in
        report-Same q (output emit q s.pending w) (output emit' q s.pending w')
          (output-Follows q s.pending w w' r)
