-- ===== src/Stream/Sse/Lines.antt =====
-- The lines that the scanner gives, against the lines of the text.
use ollame.Prelude.{
  ℕ, suc, ◌<◌, ◌≡◌, ◌≢◌, refl, sym, ap, arith, Bool, true, false, Option, none, some, [], ◌∷◌, ◌++◌,
  append-nil, append_assoc, Bytes, All, length, length-append, leb, ◌==◌, if◌then◌else◌, ok, err,
}
use ollame.Stream.{Failure}
use ollame.Stream.Sse.{
  Source, read, read_last, stop, stopped, Scanned, end_of, line_end, split_rest, split_at,
  split_lines, scan, scan_end, closing, asking, source_bytes, to_come,
}

-- What stands before the first LF, and what behind it.
abbrev pub lf_line : Bytes → Option (Bytes × Bytes)
lf_line [] = none
lf_line (c ∷ s) =
    if c == b'\n'
    then some ([], s)
    else elim (lf_line s) [ none ↦ none | some (line, rest) ↦ some (c ∷ line, rest) ]

abbrev pub all_of : Bytes → Option (Bytes × Bytes)
all_of [] = none
all_of (c ∷ s) = some (c ∷ s, [])

-- The first line of a text, the last one also without its LF.
abbrev pub first_line : Bytes → Option (Bytes × Bytes)
first_line text = elim (lf_line text) [ none ↦ all_of text | some x ↦ some x ]

abbrev pub Plain : Bytes → Type 0
Plain s = All (λ c. c ≢ b'\r') s

abbrev source_end : Source → Option Failure
source_end (read c chunk source) = source_end source
source_end (read_last chunk e) = e
source_end (stop e) = e
source_end (stopped e) = e

-- The line and all behind it, or the end of a text that is read to its end.
abbrev pub Delivers : Source → Scanned → Option (Bytes × Bytes) → Type 0
Delivers source (err e, s) o = (o ≡ none) × (e ≡ end_of (source_end source))
Delivers source (ok line, s) o =
    (o ≡ some (line, to_come s)) × (s.skip_lf ≡ false) × (source_end s.source ≡ source_end source)

abbrev with_flag : Option (Bytes × Bytes) → Option (Bytes × Bool × Bytes)
with_flag none = none
with_flag (some (line, rest)) = some (line, false, rest)

line_end-Plain : (s : Bytes) → Plain s → line_end s ≡ with_flag (lf_line s)
unfolding line_end
line_end-Plain [] p = refl
line_end-Plain (c ∷ s) p = ground (arith, line_end-Plain s p.1)

lf_line-append :
    (a b : Bytes)
    → lf_line (a ++ b) ≡ (elim (lf_line a) [
      | some (line, rest) ↦ some (line, rest ++ b)
      | none ↦ elim (lf_line b) [ none ↦ none | some (line, rest) ↦ some (a ++ line, rest) ]
    ])
lf_line-append [] b = ground arith
lf_line-append (c ∷ a) b = ground (arith, lf_line-append a b)

split-Plain :
    (s : Bytes) (done : Bool)
    → Plain s
    → split_lines false s done ≡ split_at s done (with_flag (lf_line s))
unfolding split_lines split_at split_rest
split-Plain [] done p = refl
split-Plain (c ∷ s) done p = ap (split_at (c ∷ s) done) (line_end-Plain (c ∷ s) p)

Delivers-moved :
    (source : Source) {x x' : Scanned} {o o' : Option (Bytes × Bytes)}
    → x ≡ x'
    → o ≡ o'
    → Delivers source x' o'
    → Delivers source x o
Delivers-moved source p q d = rw (p, q) d

closing-Plain :
    (s : Bytes) (e : Option Failure) (o : Option (Bytes × Bytes))
    → Delivers
        (stopped e)
        (closing (split_at s true (with_flag o)) e)
        (elim o [ none ↦ all_of s | some x ↦ some x ])
unfolding split_at split_rest
closing-Plain s e (some (line, rest)) = (rw (append-nil rest) refl, refl, refl)
closing-Plain [] e none = (refl, refl)
closing-Plain (c ∷ s) e none = (ground arith, refl, refl)

scan_end-Plain :
    (s : Bytes) (e : Option Failure)
    → Plain s
    → Delivers (stopped e) (scan_end false s e) (first_line s)
unfolding scan_end
scan_end-Plain s e p =
    Delivers-moved (stopped e) {o = first_line s} (ap (λ x. closing x e) (split-Plain s true p))
      refl (closing-Plain s e (lf_line s))

-- The line is there, or the rest of the text is asked for.
asking-Plain :
    (max : ℕ) (held : Bytes) (source : Source) (o : Option (Bytes × Bytes))
    (more : Bool → Bytes → Scanned)
    → lf_line held ≡ o
    → length held < max
    → (o ≡ none → Delivers source (more false held) (first_line (held ++ source_bytes source)))
    → let s = split_at held false (with_flag o) in
      Delivers source
        (asking max s source (more s.skip_lf s.left))
        (first_line (held ++ source_bytes source))
unfolding split_at split_rest
asking-Plain max held source (some (line, rest)) more h l k =
    (ground (arith, lf_line-append held (source_bytes source)), refl, refl)
asking-Plain max [] source none more h l k =
    let f : leb max 0 ≡ false = ground arith in rw f (k refl)
asking-Plain max (c ∷ held) source none more h l k =
    let f : leb max (suc (length held)) ≡ false = ground arith in rw f (k refl)

Plain-append : (a b : Bytes) → Plain (a ++ b) → Plain a × Plain b
Plain-append [] b p = (tt, p)
Plain-append (c ∷ a) b p = let (q, r) = Plain-append a b p.1 in ((p.0, q), r)

-- Where no CR is to come, the scanner does not stand right behind one (its split function has no LF
-- to skip), and what is to come fits into the buffer, a call of `Scan` gives the first line of it, however the bytes are cut into reads, and leaves all that stands behind the
-- line; at the end it gives the end of the source.
pub scan-first_line :
    (max : ℕ) (source : Source) (held : Bytes)
    → Plain (held ++ source_bytes source)
    → length (held ++ source_bytes source) < max
    → Delivers source (scan max false held source) (first_line (held ++ source_bytes source))
unfolding scan
scan-first_line max (stopped e) held p l =
    Delivers-moved (stopped e) {o = first_line (held ++ [])} refl (ap first_line (append-nil held))
      (scan_end-Plain held e (Plain-append held [] p).0)
scan-first_line max (stop e) held p l =
    let q = (Plain-append held [] p).0 in
    Delivers-moved (stop e) {o = first_line (held ++ [])}
      (ap (λ x. asking max x (stop e) (scan_end x.skip_lf x.left e)) (split-Plain held false q))
      refl
      (asking-Plain max held (stop e) (lf_line held) (λ skip left. scan_end skip left e) refl
        (omega (arith, l, length-append held []))
        (λ _.
          Delivers-moved (stop e) refl (ap first_line (append-nil held)) (scan_end-Plain held e q)))
scan-first_line max (read_last chunk e) held p l =
    let q = (Plain-append held chunk p).0 in
    Delivers-moved (read_last chunk e) {o = first_line (held ++ chunk)}
      (ap (λ x. asking max x (read_last chunk e) (scan_end x.skip_lf (x.left ++ chunk) e))
        (split-Plain held false q))
      refl
      (asking-Plain max held (read_last chunk e) (lf_line held)
        (λ skip left. scan_end skip (left ++ chunk) e) refl
        (omega (arith, l, length-append held chunk)) (λ _. scan_end-Plain (held ++ chunk) e p))
scan-first_line max (read c chunk source) held p l =
    let rest = source_bytes source in
    let same = append_assoc held (c ∷ chunk) rest in
    let q = (Plain-append held (c ∷ chunk ++ rest) p).0 in
    Delivers-moved (read c chunk source) {o = first_line (held ++ (c ∷ chunk ++ rest))}
      (ap
        (λ x. asking max x (read c chunk source) (scan max x.skip_lf (x.left ++ c ∷ chunk) source))
        (split-Plain held false q))
      refl
      (asking-Plain max held (read c chunk source) (lf_line held)
        (λ skip left. scan max skip (left ++ c ∷ chunk) source) refl
        (omega (arith, l, length-append held (c ∷ chunk ++ rest)))
        (λ _.
          Delivers-moved source refl (ap first_line (sym same))
            (scan-first_line max source (held ++ c ∷ chunk) (rw same p) (rw same l))))
