-- ===== src/Stream/Sse.antt =====
-- internal/stream/sse.go: server-sent events from a stream of bytes. `bufio.Scanner` is modelled
-- over the sequence of what the calls of `Read` return.
pub mod Lines
pub mod Bounds
pub mod Fuel
mod Tests
use ollame.Prelude.{
  ℕ, zero, suc, ◌+◌, ◌-◌, ◌≡◌, Bool, true, false, not, ◌&&◌, ◌||◌, Option, none, some, List, [],
  ◌∷◌, ◌++◌, Bytes, codes, bytes_eq, starts_with, cut, drop, length, ltb, leb, ◌==◌, if◌then◌else◌,
  ℤ, pos, leb_ℤ, ltb_ℤ, pos_part, Result, ok, err,
}
use ollame.Stream.{Failure, limit, eof, out_of_fuel}

abbrev pub max_event_bytes : ℕ
max_event_bytes = 16777216

-- `joined` is the field `Data`, the lines of the data joined.
pub record Event : Type 0 where
  pub kind : Bytes
  pub joined : Bytes

-- What the calls of `Read` return: one byte at least, bytes together with the end, or the end alone.
-- A call that returns neither bytes nor an end is not seen: the scanner asks again at once, without
-- calling the split function in between. The end is `none` for `io.EOF`. `stopped` is an end that the scanner has read already.
pub data Source : Type 0 where
  read : ℕ → Bytes → Source → Source
  read_last : Bytes → Option Failure → Source
  stop : Option Failure → Source
  stopped : Option Failure → Source

-- The first line end: what stands before it, whether it is a CR, and what stands behind it.
pub line_end : Bytes → Option (Bytes × Bool × Bytes)
line_end [] = none
line_end (c ∷ s) =
    let found : Option (Bytes × Bool × Bytes) = elim (line_end s) [
      | none ↦ none
      | some (line, cr, rest) ↦ some (c ∷ line, cr, rest)
    ] in
    if c == b'\n' then some ([], false, s) else if c == b'\r' then some ([], true, s) else found

-- What the split function returns: the token, the data that is left, and `skipLF`.
pub record Split : Type 0 where
  pub token : Option Bytes
  pub left : Bytes
  pub skip_lf : Bool

-- The end of the data without a line end.
pub split_rest : Bytes → Bool → Split
split_rest [] at_eof = record { token = none; left = []; skip_lf = false }
split_rest (c ∷ s) true = record { token = some (c ∷ s); left = []; skip_lf = false }
split_rest (c ∷ s) false = record { token = none; left = c ∷ s; skip_lf = false }

pub split_at : Bytes → Bool → Option (Bytes × Bool × Bytes) → Split
unfolding split_rest
split_at held at_eof none = split_rest held at_eof
split_at held at_eof (some (line, cr, rest)) = record {
  token = some line;
  left = rest;
  skip_lf = cr;
}

pub split_lines : Bool → Bytes → Bool → Split
unfolding split_at line_end
split_lines skip [] at_eof = record { token = none; left = []; skip_lf = skip }
split_lines skip (c ∷ s) at_eof =
    if skip && c == b'\n'
    then record { token = none; left = s; skip_lf = false }
    else split_at (c ∷ s) at_eof (line_end (c ∷ s))

pub data End : Type 0 where
  at_eof too_long : End
  failed : Failure → End

abbrev pub end_of : Option Failure → End
end_of none = at_eof
end_of (some e) = failed e

-- The scanner, and the limit of its buffer.
pub record Scanner : Type 0 where
  pub buffer : Bytes
  pub skip_lf : Bool
  pub source : Source

-- `Scan`: the next line, or the end.
abbrev pub Scanned : Type 0
Scanned = Result End Bytes × Scanner

-- With the end of the source known, the answer of the split function is final.
abbrev pub closing : Split → Option Failure → Scanned
closing s e = elim s.token [
  | some line ↦ (ok line, record { buffer = s.left; skip_lf = s.skip_lf; source = stopped e })
  | none ↦ (err (end_of e), record { buffer = []; skip_lf = s.skip_lf; source = stopped e })
]

pub scan_end : Bool → Bytes → Option Failure → Scanned
unfolding split_lines
scan_end skip held e = closing (split_lines skip held true) e

-- A token; or an error where the buffer is full; or more data.
abbrev pub asking : ℕ → Split → Source → Scanned → Scanned
asking max s source more = elim s.token [
  | some line ↦ (ok line, record { buffer = s.left; skip_lf = s.skip_lf; source = source })
  | none ↦
      if leb max (length s.left)
      then (err too_long, record { buffer = s.left; skip_lf = s.skip_lf; source = source })
      else more
]

pub scan : ℕ → Bool → Bytes → Source → Scanned
unfolding split_lines scan_end
scan max skip held (stopped e) = scan_end skip held e
scan max skip held (stop e) =
    let s = split_lines skip held false in asking max s (stop e) (scan_end s.skip_lf s.left e)
scan max skip held (read_last chunk e) =
    let s = split_lines skip held false in
    asking max s (read_last chunk e) (scan_end s.skip_lf (s.left ++ chunk) e)
scan max skip held (read c chunk source) =
    let s = split_lines skip held false in
    asking max s (read c chunk source) (scan max s.skip_lf (s.left ++ c ∷ chunk) source)

pub record Reader : Type 0 where
  pub scanner : Scanner
  pub max : ℕ
  pub first : Bool

unfoldable pub new_reader : Source → ℤ → Result Failure Reader
new_reader source max =
    if leb_ℤ max (pos 0) || ltb_ℤ (pos max_event_bytes) max
    then err limit
    else ok (record {
      scanner = record { buffer = []; skip_lf = false; source = source };
      max = pos_part max;
      first = true;
    })

pub trim_prefix : Bytes → Bytes → Bytes
trim_prefix prefix s = if starts_with prefix s then drop (length prefix) s else s

-- What `Next` keeps between two lines.
pub record Partial : Type 0 where
  pub event : Event
  pub have_data : Bool

abbrev pub nothing_yet : Partial
nothing_yet = record { event = record { kind = []; joined = [] }; have_data = false }

pub set_kind : ℕ → Bytes → Partial → Result Failure Partial
set_kind max value p =
    if ltb max (length value + length p.event.joined)
    then err limit
    else ok (record p { event = record p.event { kind = value } })

pub append_data : ℕ → Bytes → Partial → Result Failure Partial
append_data max value p =
    let separator = if p.have_data then codes "\n" else [] in
    if ltb max (length value + length p.event.joined + length p.event.kind + length separator)
    then err limit
    else ok (record {
      event = record p.event { joined = p.event.joined ++ separator ++ value };
      have_data = true;
    })

-- The field of a line: `Cut` leaves all of the line before a colon that is missing.
pub field_of : Option (Bytes × Bytes) → Bytes → Bytes × Bytes
field_of none line = (line, [])
field_of (some (field, value)) line = (field, value)

pub use_field : ℕ → Bytes × Bytes → Partial → Result Failure Partial
unfolding set_kind append_data trim_prefix
use_field max (field, value) p =
    let trimmed = trim_prefix (codes " ") value in
    if bytes_eq field (codes "event")
    then set_kind max trimmed p
    else if bytes_eq field (codes "data")
    then append_data max trimmed p
    else ok p

-- What a line comes to: an event that is complete, or what is kept.
pub data Line : Type 0 where
  dispatched : Event → Line
  kept : Partial → Line
  refused : Failure → Line

abbrev pub kept_or : Result Failure Partial → Line
kept_or (ok p) = kept p
kept_or (err e) = refused e

pub use_line : ℕ → Bytes → Partial → Line
unfolding use_field field_of
use_line max [] p = if p.have_data then dispatched p.event else kept nothing_yet
use_line max (c ∷ line) p =
    if ltb max (length (c ∷ line))
    then refused limit
    else if c == b':'
    then kept p
    else kept_or (use_field max (field_of (cut (codes ":") (c ∷ line)) (c ∷ line)) p)

-- The byte order mark of the first line is taken away.
abbrev pub unmarked : Bool → Bytes → Bytes
unmarked first line = if first then trim_prefix (239 ∷ 187 ∷ 191 ∷ []) line else line

abbrev pub end_failure : End → Failure
end_failure at_eof = eof
end_failure too_long = limit
end_failure (failed e) = e

pub use_result :
    (Reader → Partial → Result Failure Event × Reader)
    → Reader
    → Line
    → Result Failure Event × Reader
use_result again r (dispatched event) = (ok event, r)
use_result again r (refused e) = (err e, r)
use_result again r (kept p) = again r p

pub use_scan :
    (Reader → Partial → Result Failure Event × Reader)
    → Reader
    → Partial
    → Scanned
    → Result Failure Event × Reader
unfolding use_result use_line trim_prefix
use_scan again r p (err e, scanner) = (err (end_failure e), record r { scanner = scanner })
use_scan again r p (ok line, scanner) =
    use_result again (record r { scanner = scanner; first = false })
      (use_line r.max (unmarked r.first line) p)

-- `Next`, on fuel: a round for every line.
pub next_loop : ℕ → Reader → Partial → Result Failure Event × Reader
unfolding scan use_scan
next_loop zero r p = (err out_of_fuel, r)
next_loop (suc rounds) r p =
    use_scan (next_loop rounds) r p
      (scan (r.max + 2) r.scanner.skip_lf r.scanner.buffer r.scanner.source)

abbrev pub source_bytes : Source → Bytes
source_bytes (read c chunk source) = c ∷ chunk ++ source_bytes source
source_bytes (read_last chunk e) = chunk
source_bytes (stop e) = []
source_bytes (stopped e) = []

-- All that is still to come; every line takes one byte of it at least.
abbrev pub to_come : Scanner → Bytes
to_come s = s.buffer ++ source_bytes s.source

unfoldable pub next : Reader → Result Failure Event × Reader
unfolding next_loop
next r = next_loop (length (to_come r.scanner) + 1) r nothing_yet
