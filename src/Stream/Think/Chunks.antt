-- ===== src/Stream/Think/Chunks.antt =====
-- The splitter's result does not depend on how the text was cut into chunks.
use mathlib.Core.Option
use ollame.Prelude.{
  ℕ, zero, suc, ◌+◌, ◌-◌, ◌<◌, ◌≡◌, inl, inr, refl, ap, sym, ◌∙◌, Bool, true, false, not, Option,
  none, some, [], ◌∷◌, ◌++◌, arith, append-nil, append_assoc, Bytes, starts_with,
  starts_with-append_long, starts_with-append_short, index, cut, cut-append, cut-index, length,
  take, drop, take-append-drop, if◌then◌else◌, lt→ltb, Bool-cases, Option-cases,
}
use native.Mathlib.Decide.{dec_lt}
use ollame.Stream.{Emit}
use ollame.Stream.Think.{
  Text, ThinkSplitter, Outcome, tag_of, toggle, hold, output, after_output, pass, feed_loop, feed,
}
use ollame.Stream.Think.Hold.{begins, held, held-le, hold-held}

abbrev prepend : Bytes → Option (Bytes × Bytes) → Option (Bytes × Bytes)
prepend w = Option.map (λ (u, v). (w ++ u, v))

prepend_nil : (o : Option (Bytes × Bytes)) → prepend [] o ≡ o
prepend_nil none = refl
prepend_nil (some (u, v)) = refl

prepend_cons :
    (c : ℕ) (w : Bytes) (o : Option (Bytes × Bytes))
    → Option.map (λ (u, v). (c ∷ u, v)) (prepend w o) ≡ prepend (c ∷ w) o
prepend_cons c w none = refl
prepend_cons c w (some (u, v)) = refl

-- More text completes a tag only where the text so far begins it.
starts_with-append_false :
    (tag x t : Bytes)
    → starts_with tag x ≡ false
    → begins tag x ≡ false
    → starts_with tag (x ++ t) ≡ false
starts_with-append_false tag x t h b = elim (Bool-cases (starts_with tag (x ++ t))) [
  | inr e ↦ e
  | inl e ↦ elim (dec_lt (length x) (length tag)) [
    | yes p ↦
        ground
          (arith, starts_with-append_long tag x t e (omega arith), lt→ltb (length x) (length tag) p)
    | no p ↦ starts_with-append_short tag x t (omega arith) ∙ h
  ]
]

-- Where the tag is not there, it can begin only in the part kept back.
cut-held :
    (tag x t : Bytes)
    → cut tag x ≡ none
    → cut tag (x ++ t)
      ≡ prepend (take (length x - held tag x) x) (cut tag (drop (length x - held tag x) x ++ t))
unfolding cut held
cut-held tag [] t h = sym (prepend_nil _)
cut-held tag (c ∷ x) t h = elim (Bool-cases (begins tag (c ∷ x))) [
  | inl b ↦
      let z : length (c ∷ x) - length (c ∷ x) ≡ 0 = omega arith in rw b (rw z (sym (prepend_nil _)))
  | inr b ↦
      let z : length (c ∷ x) - held tag x ≡ suc (length x - held tag x) =
        omega (arith, held-le tag x) in
      let e : starts_with tag (c ∷ x) ≡ false = ground arith in
      let n : cut tag x ≡ none = ground arith in
      rw b (
        rw z (
          rw (starts_with-append_false tag (c ∷ x) t e b)
            (rw (cut-held tag x t n) (prepend_cons c _ _))))
]

abbrev pub join : Text → Text → Text
join a b = record { content = a.content ++ b.content; thinking = a.thinking ++ b.thinking }

-- A piece of text, put out inside or outside of the block.
abbrev pub piece : Bool → Bytes → Text
piece inside text =
    if inside
    then record { content = []; thinking = text }
    else record { content = text; thinking = [] }

-- What follows an opening tag: thinking up to the closing tag, and content behind it.
abbrev pub split_inside : Option (Bytes × Bytes) → Bytes → Text
split_inside none text = piece true text
split_inside (some (u, v)) text = record { content = v; thinking = u }

abbrev pub split_at_open : Option (Bytes × Bytes) → Bytes → Text
split_at_open none text = piece false text
split_at_open (some (u, v)) text = join (piece false u) (split_inside (cut (tag_of true) v) v)

-- The splitter's meaning on a whole text: at most one block, between the first opening tag and
-- the first closing tag behind it. The flag says that the text begins inside of the block.
abbrev pub split : Bool → Bytes → Text
split true text = split_inside (cut (tag_of true) text) text
split false text = split_at_open (cut (tag_of false) text) text

-- What becomes of the text that follows, by the fields `extracted` and `inside`.
abbrev pub rest_of : Bool → Bool → Bytes → Text
rest_of true inside text = piece false text
rest_of false inside text = split inside text

abbrev pub rest : ThinkSplitter → Bytes → Text
rest s = rest_of s.extracted s.inside

join_assoc : (a b c : Text) → join (join a b) c ≡ join a (join b c)
join_assoc a b c = λ i. record {
  content = append_assoc a.content b.content c.content i;
  thinking = append_assoc a.thinking b.thinking c.thinking i;
}

split_found :
    (inside : Bool) (x u v : Bytes)
    → cut (tag_of inside) x ≡ some (u, v)
    → split inside x ≡ join (piece inside u) (rest_of inside (not inside) v)
split_found true x u v h = rw h (λ i. record { content = v; thinking = sym (append-nil u) i })
split_found false x u v h = rw h

split_held :
    (inside : Bool) (u x : Bytes) (o : Option (Bytes × Bytes))
    → cut (tag_of inside) x ≡ o
    → cut (tag_of inside) (u ++ x) ≡ prepend u o
    → split inside (u ++ x) ≡ join (piece inside u) (split inside x)
split_held true u x none h k = rw (h, k)
split_held true u x (some (a, b)) h k = rw (h, k)
split_held false u x none h k = rw (h, k)
split_held false u x (some (a, b)) h k =
    rw (h, k) (join_assoc (piece false u) (piece false a) (split_inside (cut (tag_of true) b) b))

-- An emit function that joins what it is given, and never fails.
abbrev pub gather : Emit Text Text
gather t w = (join w t, none)

join_nil : (w : Text) → join w (record { content = []; thinking = [] }) ≡ w
join_nil w = λ i. record { content = append-nil w.content i; thinking = append-nil w.thinking i }

pub output-gather :
    (inside extracted : Bool) (p u : Bytes) (w : Text)
    → output gather (record { inside = inside; extracted = extracted; pending = p }) u w
      ≡ (join w (piece inside u), none)
unfolding output
output-gather true _ _ [] w = ap (λ t. (t, none)) (sym (join_nil w))
output-gather false _ _ [] w = ap (λ t. (t, none)) (sym (join_nil w))
output-gather true _ _ (c ∷ u) w = refl
output-gather false _ _ (c ∷ u) w = refl

unfoldable pub tags_left : Bool → Bool → ℕ
tags_left true inside = 0
tags_left false true = 1
tags_left false false = 2

-- No error, and with what is still to come the result is as before.
abbrev pub Keeps : Text → Text → Bytes → Outcome Text → Type 0
Keeps w before t (s', w', e) = (e ≡ none) × (join w before ≡ join w' (rest s' (s'.pending ++ t)))

cut_found :
    (tag x t : Bytes) (at : ℕ)
    → index tag x ≡ some at
    → cut tag (x ++ t) ≡ some (take at x, drop (at + length tag) x ++ t)
cut_found tag x t at e = cut-append tag x t _ _ (cut-index tag x ∙ rw e)

pub tag_length : (inside : Bool) → 0 < length (tag_of inside)
tag_length true = omega arith
tag_length false = omega arith

split_kept :
    (inside : Bool) (x t : Bytes) (k : ℕ)
    → k ≡ length x - hold (tag_of inside) x
    → index (tag_of inside) x ≡ none
    → split inside (x ++ t) ≡ join (piece inside (take k x)) (split inside (drop k x ++ t))
split_kept inside x t k ek e =
    let tag = tag_of inside in
    let parts : take k x ++ (drop k x ++ t) ≡ x ++ t =
      sym (append_assoc (take k x) (drop k x) t) ∙ ap (λ y. y ++ t) (take-append-drop k x) in
    let known : k ≡ length x - held tag x =
      ek ∙ ap (λ n. length x - n) (hold-held tag x (tag_length inside)) in
    let found : cut tag (x ++ t) ≡ prepend (take k x) (cut tag (drop k x ++ t)) =
      rw known (cut-held tag x t (cut-index tag x ∙ rw e)) in
    ap (split inside) (sym parts)
    ∙ split_held inside (take k x) (drop k x ++ t) _ refl (ap (cut tag) parts ∙ found)

abbrev pub fresh : Bool → Bool → ThinkSplitter
fresh inside extracted = record { inside = inside; extracted = extracted; pending = [] }

pub toggle_fields : (inside : Bool) → toggle (fresh inside false) ≡ fresh (not inside) inside
toggle_fields true = refl
toggle_fields false = refl

-- What the loop owes at every call.
abbrev KeepsAll : (ThinkSplitter → Bytes → Text → Outcome Text) → Bool → Bool → Type 0
KeepsAll next inside extracted =
    (x t : Bytes) (w : Text)
    → Keeps w (rest_of extracted inside (x ++ t)) t (next (fresh inside extracted) x w)

pass-some :
    (next : ThinkSplitter → Bytes → Text → Outcome Text) (inside : Bool) (x : Bytes) (at : ℕ)
    (w : Text)
    → pass gather next (fresh inside false) x (some at) w
      ≡ next
          (fresh (not inside) inside)
          (drop (at + length (tag_of inside)) x)
          (join w (piece inside (take at x)))
unfolding pass after_output
pass-some next inside x at w =
    let y = drop (at + length (tag_of inside)) x in
    ap (after_output gather (next (toggle (fresh inside false)) y) (fresh inside false))
      (output-gather inside false [] (take at x) w)
    ∙ ap (λ s. next s y (join w (piece inside (take at x)))) (toggle_fields inside)

-- A round that passes a tag.
Keeps-found :
    (next : ThinkSplitter → Bytes → Text → Outcome Text)
    → (inside : Bool) (x t : Bytes) (at : ℕ) (w : Text) → index (tag_of inside) x ≡ some at
    → KeepsAll next (not inside) inside
    → Keeps w (split inside (x ++ t)) t (pass gather next (fresh inside false) x (some at) w)
Keeps-found next inside x t at w e ih =
    let later = ih (drop (at + length (tag_of inside)) x) t (join w (piece inside (take at x))) in
    rw (pass-some next inside x at w) (
      later.0,
      ap (join w) (split_found inside (x ++ t) _ _ (cut_found (tag_of inside) x t at e))
          ∙ sym (join_assoc w _ _)
          ∙ later.1,
    )

-- A round that passes none.
Keeps-held :
    (next : ThinkSplitter → Bytes → Text → Outcome Text)
    → (inside : Bool) (x t : Bytes) (w : Text) → index (tag_of inside) x ≡ none
    → Keeps w (split inside (x ++ t)) t (pass gather next (fresh inside false) x none w)
unfolding pass
Keeps-held next inside x t w e =
    rw (output-gather inside false [])
      (refl, ap (join w) (split_kept inside x t _ refl e) ∙ sym (join_assoc w _ _))

feed_loop-Keeps :
    (rounds : ℕ) (inside extracted : Bool)
    → tags_left extracted inside < rounds
    → KeepsAll (feed_loop gather rounds) inside extracted
unfolding feed_loop tags_left
feed_loop-Keeps zero inside extracted m x t w = absurd (omega arith)
feed_loop-Keeps (suc rounds) inside extracted m [] t w = (refl, refl)
feed_loop-Keeps (suc rounds) inside true m (c ∷ x) t w =
    (refl, sym (join_assoc w (piece false (c ∷ x)) (piece false t)))
feed_loop-Keeps (suc rounds) inside false m (c ∷ x) t w =
    elim (Option-cases (index (tag_of inside) (c ∷ x))) [
      | inl n ↦ rw n (Keeps-held (feed_loop gather rounds) inside (c ∷ x) t w n)
      | inr (at, n) ↦ rw n (
          Keeps-found (feed_loop gather rounds) inside (c ∷ x) t at w n
            (feed_loop-Keeps rounds (not inside) inside (less inside m)))
    ]
  where
    less : (b : Bool) → tags_left false b < suc rounds → tags_left b (not b) < rounds
    less true h = omega arith
    less false h = omega arith

-- Feeding a chunk keeps what the whole text comes to.
pub feed-Keeps :
    (s : ThinkSplitter) (x t : Bytes) (w : Text)
    → Keeps w (rest s (s.pending ++ (x ++ t))) t (feed gather s x w)
unfolding feed tags_left
feed-Keeps s x t w =
    rw (← append_assoc s.pending x t)
      (feed_loop-Keeps 3 s.inside s.extracted (small s.extracted s.inside) (s.pending ++ x) t w)
  where
    small : (a b : Bool) → tags_left a b < 3
    small true b = omega arith
    small false true = omega arith
    small false false = omega arith
