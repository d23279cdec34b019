-- ===== src/Stream/Sse/Bounds.antt =====
-- The size of an event, and the rounds that `Next` takes.
use ollame.Prelude.{
  ℕ, zero, suc, ◌+◌, ◌≤◌, ◌≡◌, refl, arith, Bool, true, false, [], ◌∷◌, ◌++◌, Bytes, codes, cut,
  bytes_eq, length, length-append, ltb, ◌==◌, if◌then◌else◌, Result, ok, err, ok_injective,
}
use ollame.Stream.{Failure, limit}
use ollame.Stream.Sse.{
  Event, Scanned, Reader, scan, to_come, Partial, nothing_yet, Line, dispatched, kept, refused,
  kept_or, trim_prefix, set_kind, append_data, field_of, use_field, use_line, use_result, use_scan,
  unmarked, next_loop, next,
}

abbrev pub Small : ℕ → Event → Type 0
Small max event = length event.kind + length event.joined ≤ max

abbrev SmallPartial : ℕ → Result Failure Partial → Type 0
SmallPartial max (ok p) = Small max p.event
SmallPartial max (err e) = Unit {0}

abbrev SmallLine : ℕ → Line → Type 0
SmallLine max (dispatched event) = Small max event
SmallLine max (kept p) = Small max p.event
SmallLine max (refused e) = Unit {0}

guarded :
    (max : ℕ) (b : Bool) (p : Partial)
    → (b ≡ false → Small max p.event)
    → SmallPartial max (if b then err limit else ok p)
guarded max true p h = tt
guarded max false p h = h refl

joined_length :
    (max : ℕ) (kind joined s value : Bytes)
    → ltb max (length value + length joined + length kind + length s) ≡ false
    → length kind + length (joined ++ s ++ value) ≤ max
joined_length max kind joined s value h =
    ground (arith, length-append (joined ++ s) value, length-append joined s)

set_kind-Small : (max : ℕ) (value : Bytes) (p : Partial) → SmallPartial max (set_kind max value p)
unfolding set_kind
set_kind-Small max value p = ground arith

append_data-Small :
    (max : ℕ) (value : Bytes) (p : Partial) → SmallPartial max (append_data max value p)
unfolding append_data
append_data-Small max value p =
    let s : Bytes = if p.have_data then codes "\n" else [] in
    guarded max (ltb max (length value + length p.event.joined + length p.event.kind + length s))
      (record {
        event = record p.event { joined = p.event.joined ++ s ++ value };
        have_data = true;
      })
      (λ h. joined_length max p.event.kind p.event.joined s value h)

use_field-Small :
    (max : ℕ) (f : Bytes × Bytes) (p : Partial)
    → Small max p.event
    → SmallPartial max (use_field max f p)
unfolding use_field
use_field-Small max (field, value) p h =
    by (bytes_eq field (codes "event")) (bytes_eq field (codes "data"))
  where
    trimmed : Bytes
    trimmed = trim_prefix (codes " ") value

    by :
        (b c : Bool)
        → SmallPartial max
            (if b then set_kind max trimmed p else if c then append_data max trimmed p else ok p)
    by true c = set_kind-Small max trimmed p
    by false true = append_data-Small max trimmed p
    by false false = h

kept_or-Small :
    (max : ℕ) (r : Result Failure Partial) → SmallPartial max r → SmallLine max (kept_or r)
kept_or-Small max (ok p) h = h
kept_or-Small max (err e) h = tt

use_line-Small :
    (max : ℕ) (line : Bytes) (p : Partial) → Small max p.event → SmallLine max (use_line max line p)
unfolding use_line
use_line-Small max [] p h = by p.have_data
  where
    by : (b : Bool) → SmallLine max (if b then dispatched p.event else kept nothing_yet)
    by true = h
    by false = omega arith
use_line-Small max (c ∷ line) p h =
    by (ltb max (length (c ∷ line))) (c == b':')
      (use_field max (field_of (cut (codes ":") (c ∷ line)) (c ∷ line)) p)
      (use_field-Small max (field_of (cut (codes ":") (c ∷ line)) (c ∷ line)) p h)
  where
    by :
        (a b : Bool) (r : Result Failure Partial)
        → SmallPartial max r
        → SmallLine max (if a then refused limit else if b then kept p else kept_or r)
    by true b r k = tt
    by false true r k = h
    by false false r k = kept_or-Small max r k

use_scan-Small :
    (again : Reader → Partial → Result Failure Event × Reader) (r : Reader) (p : Partial)
    (x : Scanned) (event : Event)
    → Small r.max p.event
    → ((r' : Reader) (p' : Partial)
        → Small r'.max p'.event
        → (again r' p').0 ≡ ok event
        → Small r'.max event)
    → (use_scan again r p x).0 ≡ ok event
    → Small r.max event
unfolding use_scan use_result
use_scan-Small again r p (err e, scanner) event h k q = absurd cc
use_scan-Small again r p (ok line, scanner) event h k q =
    by (use_line r.max (unmarked r.first line) p) (use_line-Small r.max (unmarked r.first line) p h)
      q
  where
    r' : Reader
    r' = record r { scanner = scanner; first = false }

    by : (l : Line) → SmallLine r.max l → (use_result again r' l).0 ≡ ok event → Small r.max event
    by (dispatched e) s q = let same : e ≡ event = ok_injective q in rw (← same) s
    by (refused e) s q = absurd cc
    by (kept p') s q = k r' p' s q

next_loop-Small :
    (rounds : ℕ) (r : Reader) (p : Partial) (event : Event)
    → Small r.max p.event
    → (next_loop rounds r p).0 ≡ ok event
    → Small r.max event
unfolding next_loop
next_loop-Small zero r p event h q = absurd cc
next_loop-Small (suc rounds) r p event h q =
    use_scan-Small (next_loop rounds) r p
      (scan (r.max + 2) r.scanner.skip_lf r.scanner.buffer r.scanner.source) event h
      (λ r' p' h' q'. next_loop-Small rounds r' p' event h' q') q

-- The type and the data of an event that `Next` returns are together within the maximum,
-- whatever the source is.
pub next-Small : (r : Reader) (event : Event) → (next r).0 ≡ ok event → Small r.max event
unfolding next
next-Small r event q =
    next_loop-Small (length (to_come r.scanner) + 1) r nothing_yet event (omega arith) q
