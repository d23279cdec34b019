-- ===== src/Stream/Sse/Fuel.antt =====
-- The rounds that `Next` takes: one for every line at most.
use ollame.Prelude.{
  ℕ, zero, suc, ◌+◌, ◌≤◌, ◌<◌, ◌≡◌, ◌≢◌, refl, ap, arith, Bool, true, false, ◌&&◌, Option, none,
  some, [], ◌∷◌, ◌++◌, Bytes, length, length-append, leb, ◌==◌, if◌then◌else◌, Result, ok, err,
  err_injective,
}
use ollame.Stream.{Failure, limit, out_of_fuel}
use ollame.Stream.Sse.{
  Event, Source, read, read_last, stop, stopped, Split, Scanned, Reader, end_of, too_long, line_end,
  split_rest, split_at, split_lines, closing, asking, scan, scan_end, source_bytes, to_come,
  Partial, nothing_yet, Line, dispatched, kept, refused, use_line, use_field, set_kind, append_data,
  field_of, use_result, use_scan, unmarked, end_failure, next_loop, next,
}

abbrev Shorter : ℕ → Option (Bytes × Bool × Bytes) → Type 0
Shorter n none = Unit {0}
Shorter n (some (line, cr, rest)) = length rest < n

line_end-Shorter : (s : Bytes) → Shorter (length s) (line_end s)
unfolding line_end
line_end-Shorter [] = tt
line_end-Shorter (c ∷ s) = ground (arith, line_end-Shorter s)

-- A token takes a byte at least, and nothing is added.
abbrev TakesFrom : ℕ → Option Bytes → Bytes → Type 0
TakesFrom n none left = length left ≤ n
TakesFrom n (some line) left = length left < n

abbrev Takes : ℕ → Split → Type 0
Takes n s = TakesFrom n s.token s.left

Takes-if :
    (n : ℕ) (b : Bool) (s s' : Split) → Takes n s → Takes n s' → Takes n (if b then s else s')
Takes-if n true s s' h k = h
Takes-if n false s s' h k = k

split_at-Takes :
    (c : ℕ) (s : Bytes) (done : Bool) (o : Option (Bytes × Bool × Bytes))
    → Shorter (suc (length s)) o
    → Takes (suc (length s)) (split_at (c ∷ s) done o)
unfolding split_at split_rest
split_at-Takes c s true none h = omega arith
split_at-Takes c s false none h = omega arith
split_at-Takes c s done (some (line, cr, rest)) h = h

split_lines-Takes :
    (skip : Bool) (s : Bytes) (done : Bool) → Takes (length s) (split_lines skip s done)
unfolding split_lines
split_lines-Takes skip [] done = omega arith
split_lines-Takes skip (c ∷ s) done =
    Takes-if (suc (length s)) (skip && c == b'\n')
      (record { token = none; left = s; skip_lf = false })
      (split_at (c ∷ s) done (line_end (c ∷ s))) (omega arith)
      (split_at-Takes c s done (line_end (c ∷ s)) (line_end-Shorter (c ∷ s)))

-- A line leaves less to come.
abbrev Less : ℕ → Scanned → Type 0
Less n (ok line, s) = length (to_come s) < n
Less n (err e, s) = Unit {0}

closing-Less : (n : ℕ) (s : Split) (e : Option Failure) → Takes n s → Less n (closing s e)
closing-Less n s e = by s.token
  where
    by :
        (o : Option Bytes)
        → TakesFrom n o s.left
        → Less n (elim o [
          | some line ↦
              (ok line, record { buffer = s.left; skip_lf = s.skip_lf; source = stopped e })
          | none ↦ (err (end_of e), record { buffer = []; skip_lf = s.skip_lf; source = stopped e })
        ])
    by none h = tt
    by (some line) h = omega (arith, h, length-append s.left [])

Less-if : (n : ℕ) (b : Bool) (x y : Scanned) → Less n x → Less n y → Less n (if b then x else y)
Less-if n true x y h k = h
Less-if n false x y h k = k

asking-Less :
    (n m max : ℕ) (s : Split) (source : Source) (more : Scanned)
    → Takes n s
    → m ≡ n + length (source_bytes source)
    → (length s.left ≤ n → Less m more)
    → Less m (asking max s source more)
asking-Less n m max s source more h sum k = by s.token h k
  where
    full : Scanned
    full = (err too_long, record { buffer = s.left; skip_lf = s.skip_lf; source = source })

    by :
        (o : Option Bytes)
        → TakesFrom n o s.left
        → (length s.left ≤ n → Less m more)
        → Less m (elim o [
          | some line ↦ (ok line, record { buffer = s.left; skip_lf = s.skip_lf; source = source })
          | none ↦ if leb max (length s.left) then full else more
        ])
    by none t k = Less-if m (leb max (length s.left)) full more tt (k t)
    by (some line) t k = omega (arith, t, sum, length-append s.left (source_bytes source))

Less-mono : (n m : ℕ) (x : Scanned) → n ≤ m → Less n x → Less m x
Less-mono n m (ok line, s) l h = omega (arith, l, h)
Less-mono n m (err e, s) l h = tt

scan_end-Less :
    (skip : Bool) (held : Bytes) (e : Option Failure) (m : ℕ)
    → length held ≤ m
    → Less m (scan_end skip held e)
unfolding scan_end
scan_end-Less skip held e m l =
    Less-mono (length held) m _ l
      (closing-Less (length held) (split_lines skip held true) e (split_lines-Takes skip held true))

scan-Less :
    (max : ℕ) (skip : Bool) (held : Bytes) (source : Source) (m : ℕ)
    → m ≡ length held + length (source_bytes source)
    → Less m (scan max skip held source)
unfolding scan
scan-Less max skip held (stopped e) m sum = scan_end-Less skip held e m (omega (arith, sum))
scan-Less max skip held (stop e) m sum =
    let s = split_lines skip held false in
    asking-Less (length held) m max s (stop e) (scan_end s.skip_lf s.left e)
      (split_lines-Takes skip held false) sum
      (λ l. scan_end-Less s.skip_lf s.left e m (omega (arith, l, sum)))
scan-Less max skip held (read_last chunk e) m sum =
    let s = split_lines skip held false in
    asking-Less (length held) m max s (read_last chunk e) (scan_end s.skip_lf (s.left ++ chunk) e)
      (split_lines-Takes skip held false) sum
      (λ l.
        scan_end-Less s.skip_lf (s.left ++ chunk) e m
          (omega (arith, l, sum, length-append s.left chunk)))
scan-Less max skip held (read c chunk source) m sum =
    let s = split_lines skip held false in
    asking-Less (length held) m max s (read c chunk source)
      (scan max s.skip_lf (s.left ++ c ∷ chunk) source) (split_lines-Takes skip held false) sum
      (λ l.
        Less-mono (length (s.left ++ c ∷ chunk) + length (source_bytes source)) m _
          (omega (
            arith,
            l,
            sum,
            length-append s.left (c ∷ chunk),
            length-append (c ∷ chunk) (source_bytes source),
          ))
          (scan-Less max s.skip_lf (s.left ++ c ∷ chunk) source _ refl))

-- The source's own error is no lack of fuel.
abbrev pub Proper : Source → Type 0
Proper (read c chunk source) = Proper source
Proper (read_last chunk e) = e ≢ some out_of_fuel
Proper (stop e) = e ≢ some out_of_fuel
Proper (stopped e) = e ≢ some out_of_fuel

abbrev Honest : Scanned → Type 0
Honest (ok line, s) = Proper s.source
Honest (err e, s) = end_failure e ≢ out_of_fuel

closing-Honest : (s : Split) (e : Option Failure) → e ≢ some out_of_fuel → Honest (closing s e)
closing-Honest s e h = by s.token e h
  where
    by :
        (o : Option Bytes) (e : Option Failure)
        → e ≢ some out_of_fuel
        → Honest (elim o [
          | some line ↦
              (ok line, record { buffer = s.left; skip_lf = s.skip_lf; source = stopped e })
          | none ↦ (err (end_of e), record { buffer = []; skip_lf = s.skip_lf; source = stopped e })
        ])
    by (some line) e h = h
    by none none h = λ q. cc
    by none (some e) h = λ q. h (ap some q)

asking-Honest :
    (max : ℕ) (s : Split) (source : Source) (more : Scanned)
    → Proper source
    → Honest more
    → Honest (asking max s source more)
asking-Honest max s source more p h = by s.token (leb max (length s.left))
  where
    full : Scanned
    full = (err too_long, record { buffer = s.left; skip_lf = s.skip_lf; source = source })

    by :
        (o : Option Bytes) (b : Bool)
        → Honest (elim o [
          | some line ↦ (ok line, record { buffer = s.left; skip_lf = s.skip_lf; source = source })
          | none ↦ if b then full else more
        ])
    by (some line) b = p
    by none true = λ q. cc
    by none false = h

scan-Honest :
    (max : ℕ) (skip : Bool) (held : Bytes) (source : Source)
    → Proper source
    → Honest (scan max skip held source)
unfolding scan scan_end
scan-Honest max skip held (stopped e) p = closing-Honest _ e p
scan-Honest max skip held (stop e) p = asking-Honest max _ (stop e) _ p (closing-Honest _ e p)
scan-Honest max skip held (read_last chunk e) p =
    asking-Honest max _ (read_last chunk e) _ p (closing-Honest _ e p)
scan-Honest max skip held (read c chunk source) p =
    let s = split_lines skip held false in
    asking-Honest max s (read c chunk source) _ p
      (scan-Honest max s.skip_lf (s.left ++ c ∷ chunk) source p)

use_line-refused :
    (max : ℕ) (line : Bytes) (p : Partial) (e : Failure)
    → use_line max line p ≡ refused e
    → e ≡ limit
unfolding use_line use_field set_kind append_data field_of
use_line-refused max line p e h = ground arith

use_scan-Honest :
    (again : Reader → Partial → Result Failure Event × Reader) (r : Reader) (p : Partial) (n : ℕ)
    (x : Scanned)
    → Honest x
    → Less n x
    → ((r' : Reader) (p' : Partial)
        → Proper r'.scanner.source
        → length (to_come r'.scanner) < n
        → (again r' p').0 ≢ err out_of_fuel)
    → (use_scan again r p x).0 ≢ err out_of_fuel
unfolding use_scan
use_scan-Honest again r p n (err e, s) h l k = λ q. h (err_injective q)
use_scan-Honest again r p n (ok line, s) h l k = by (use_line r.max (unmarked r.first line) p) refl
  where
    r' : Reader
    r' = record r { scanner = s; first = false }

    by :
        (x : Line)
        → use_line r.max (unmarked r.first line) p ≡ x
        → (use_result again r' x).0 ≢ err out_of_fuel
    by (dispatched event) same = λ q. cc
    by (refused e) same = λ q.
        let a : e ≡ limit = use_line-refused r.max (unmarked r.first line) p e same in
        let b : e ≡ out_of_fuel = err_injective q in cc
    by (kept p') same = k r' p' h l

next_loop-Honest :
    (rounds : ℕ) (r : Reader) (p : Partial)
    → Proper r.scanner.source
    → length (to_come r.scanner) < rounds
    → (next_loop rounds r p).0 ≢ err out_of_fuel
unfolding next_loop
next_loop-Honest zero r p h l = absurd (omega arith)
next_loop-Honest (suc rounds) r p h l =
    let t = r.scanner in
    use_scan-Honest (next_loop rounds) r p (length (to_come t))
      (scan (r.max + 2) t.skip_lf t.buffer t.source)
      (scan-Honest (r.max + 2) t.skip_lf t.buffer t.source h)
      (scan-Less (r.max + 2) t.skip_lf t.buffer t.source (length (to_come t))
        (length-append t.buffer (source_bytes t.source)))
      (λ r' p' h' l'. next_loop-Honest rounds r' p' h' (omega (arith, l, l')))

-- The rounds of `Next` are enough: it comes to an event or to an error of its own or of the source.
pub next_fuel : (r : Reader) → Proper r.scanner.source → (next r).0 ≢ err out_of_fuel
unfolding next
next_fuel r h = next_loop-Honest (length (to_come r.scanner) + 1) r nothing_yet h (omega arith)
