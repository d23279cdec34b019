-- ===== src/Stream/Sse/Tests.antt =====
-- Runs of the reader, and its theorems at concrete input.
use ollame.Prelude.{
  ◌≡◌, ◌≢◌, refl, arith, true, false, none, [], ◌∷◌, ◌++◌, Bytes, String, codes, bytes_eq,
  starts_with, cut, pos, ok, err,
}
use ollame.Stream.{eof, out_of_fuel}
use ollame.Stream.Sse.{
  Event, Source, read, read_last, stop, Reader, new_reader, scan, source_bytes, next,
}
use ollame.Stream.Sse.Lines.{Delivers, first_line, scan-first_line}
use ollame.Stream.Sse.Bounds.{Small, next-Small}
use ollame.Stream.Sse.Fuel.{next_fuel}

abbrev reader : Source → Reader
reader source = record {
  scanner = record { buffer = []; skip_lf = false; source = source };
  max = 20;
  first = true;
}

abbrev event : String → Event
event text = record { kind = []; joined = codes text }

abbrev one_read : Bytes → Source → Source
one_read [] source = source
one_read (c ∷ chunk) source = read c chunk source

-- The line ends of two events, in one read
abbrev two_events : String → String → Source
two_events first second = one_read (codes first ++ codes second) (stop none)

abbrev bytes_of : Bytes → Source
bytes_of [] = stop none
bytes_of (c ∷ s) = read c [] (bytes_of s)

made : new_reader (stop none) (pos 20) ≡ ok (reader (stop none))
unfolding new_reader
made = refl

lf_events :
    ((next (reader (two_events "data: a\n\n" "data:b\n\n"))).0 ≡ ok (event "a"))
    × ((next (next (reader (two_events "data: a\n\n" "data:b\n\n"))).1).0 ≡ ok (event "b"))
unfolding next starts_with bytes_eq cut
lf_events = (refl, refl)

-- Byte by byte both events of a text with CRLF are found.
crlf_events :
    let r = reader (bytes_of (codes "data: a\r\n\r\ndata: b\r\n\r\n")) in
    ((next r).0 ≡ ok (event "a")) × ((next (next r).1).0 ≡ ok (event "b"))
unfolding next starts_with bytes_eq cut
crlf_events = (refl, refl)

-- In one read the second is lost: the scanner stops where the split function skips an LF at the end.
crlf_lost :
    let r = reader (two_events "data: a\r\n\r\n" "data: b\r\n\r\n") in
    ((next r).0 ≡ ok (event "a")) × ((next (next r).1).0 ≡ err eof)
unfolding next starts_with bytes_eq cut
crlf_lost = (refl, refl)

abbrev cut_text : Source
cut_text = one_read (codes "ab") (read_last (codes "c\nd") none)

scan-first_line_example :
    Delivers cut_text
      (scan 20 false (codes "x") cut_text)
      (first_line (codes "x" ++ source_bytes cut_text))
scan-first_line_example = scan-first_line 20 cut_text (codes "x") (ground arith) (omega arith)

next-Small_example : Small 20 (event "a")
next-Small_example =
    next-Small (reader (two_events "data: a\n\n" "data:b\n\n")) (event "a") lf_events.0

next_fuel_example : (next (reader cut_text)).0 ≢ err out_of_fuel
next_fuel_example = next_fuel (reader cut_text) (λ q. cc)
