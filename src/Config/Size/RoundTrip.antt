-- ===== src/Config/Size/RoundTrip.antt =====
-- What `Size.UnmarshalText` reads is in range, and what `Size.MarshalText` wrote is read back.
use ollame.Prelude.{
  ℕ, ◌-◌, ◌*◌, ◌^◌, ◌≤◌, ◌<◌, ◌≡◌, refl, sym, ap, ◌∙◌, inl, inr, arith, ℤ, pos, negsuc, max_int,
  true, false, List, [], ◌∷◌, ◌++◌, some, Bytes, codes, bytes_eq_iff, length, take, drop,
  take-append-drop, take-length-append, drop-length-append, length-append, ends_with, get_elem?,
  All, suc, append_assoc, Bool-cases, Option-cases, ok,
}
use mathlib.Core.List.{append_cancel_right}
use ollame.Prelude.Decimal.{
  is_digit, all_digits, all_digits-append, format_nat, format_int, format_nat-all_digits, parse_int,
  parse-format_nat,
}
use ollame.Config.Size.{
  mul_int64, scaled, with_unit, try_units, units, unmarshal_size, marshal_size,
}

ends_with-split : (p s : Bytes) → ends_with p s ≡ true → (t : Bytes) × (s ≡ t ++ p)
unfolding ends_with
ends_with-split p s h =
    let at : ℕ = length s - length p in
    let e : drop at s ≡ p = (bytes_eq_iff (drop at s) p).0 (ground arith) in
    (take at s, sym (take-append-drop at s) ∙ ap (λ (q : Bytes). take at s ++ q) e)

before_suffix : (t p : Bytes) → length (t ++ p) - length p ≡ length t
before_suffix t p = omega (arith, length-append t p)

ends_with-append : (p t : Bytes) → ends_with p (t ++ p) ≡ true
unfolding ends_with
ends_with-append p t =
    rw (before_suffix t p)
      (rw (drop-length-append t p) (ground (arith, length-append t p, bytes_eq_iff p p)))

-- Digits and a `B` end with no unit that has a letter before its `B`.
other_unit :
    (u ds : Bytes) (c : ℕ)
    → is_digit c ≡ false
    → all_digits ds ≡ true
    → ends_with (u ++ c ∷ codes "B") (ds ++ codes "B") ≡ false
other_unit u ds c nd h = elim (Bool-cases (ends_with (u ++ c ∷ codes "B") (ds ++ codes "B"))) [
  | inr no_suffix ↦ no_suffix
  | inl suffix ↦
      let (t, e) = ends_with-split (u ++ c ∷ codes "B") (ds ++ codes "B") suffix in
      let f : t ++ (u ++ c ∷ codes "B") ≡ ((t ++ u) ++ c ∷ []) ++ codes "B" =
        sym (append_assoc t u (c ∷ codes "B")) ∙ sym (append_assoc (t ++ u) (c ∷ []) (codes "B")) in
      let g = append_cancel_right ds ((t ++ u) ++ c ∷ []) (codes "B") (e ∙ f) in
      absurd (ground (arith, all_digits-append (t ++ u) (c ∷ []), ap all_digits g))
]

take_before : (t p : Bytes) → take (length (t ++ p) - length p) (t ++ p) ≡ t
take_before t p = rw (before_suffix t p) (take-length-append t p)

read_bytes : (n : ℕ) → n < 2 ^ 63 → with_unit (format_nat n ++ codes "B") (codes "B") 1 ≡ ok (pos n)
unfolding with_unit scaled mul_int64
read_bytes n h =
    let s = format_nat n ++ codes "B" in
    let count : parse_int (take (length s - 1) s) ≡ some (pos n) =
      rw (take_before (format_nat n) (codes "B")) (parse-format_nat n h) in
    ground (arith, count)

-- A size that is not negative is read back from its text, which has the unit `B`.
pub unmarshal-marshal_size :
    (n : ℕ) → n < 2 ^ 63 → unmarshal_size (marshal_size (pos n)) ≡ ok (pos n)
unfolding unmarshal_size try_units marshal_size is_digit format_int
unmarshal-marshal_size n h =
    let other = λ (u : Bytes) (c : ℕ) (nd : is_digit c ≡ false).
      other_unit u (format_nat n) c nd (format_nat-all_digits n) in
    ground (
      arith,
      other (codes "G") b'i' refl,
      other (codes "M") b'i' refl,
      other (codes "K") b'i' refl,
      other [] b'G' refl,
      other [] b'M' refl,
      other [] b'K' refl,
      ends_with-append (codes "B") (format_nat n),
      read_bytes n h,
    )

scaled-fits :
    (scale count : ℕ) (s : ℤ)
    → 0 < scale
    → scaled scale (pos count) ≡ ok s
    → (s ≡ pos (count * scale)) × (count * scale < 2 ^ 63)
unfolding scaled mul_int64
scaled-fits scale count s p h = let fits : count * scale ≤ max_int = grind arith in ground arith

-- How a size is read: a count in front of one of the units, and their product.
pub record IsSize (us : List (Bytes × ℕ)) (value : Bytes) (s : ℤ) : Type 0 where
  pub place : ℕ
  pub name : Bytes
  pub scale : ℕ
  pub text : Bytes
  pub count : ℕ
  pub listed : get_elem? us place ≡ some (name, scale)
  pub splits : value ≡ text ++ name
  pub parsed : parse_int text ≡ some (pos count)
  pub product : s ≡ pos (count * scale)
  pub fits : count * scale < 2 ^ 63

with_unit-parsed :
    (value name : Bytes) (scale : ℕ) (count : ℤ)
    → parse_int (take (length value - length name) value) ≡ some count
    → with_unit value name scale ≡ scaled scale count
unfolding with_unit
with_unit-parsed value name scale count e = rw (with_unit, e)

with_unit-IsSize :
    (value name : Bytes) (scale : ℕ) (us : List (Bytes × ℕ)) (s : ℤ)
    → 0 < scale
    → ends_with name value ≡ true
    → with_unit value name scale ≡ ok s
    → IsSize ((name, scale) ∷ us) value s
unfolding with_unit
with_unit-IsSize value name scale us s p e h =
    let (text, split) = ends_with-split name value e in
    let taken : take (length value - length name) value ≡ text =
      ap (λ (v : Bytes). take (length v - length name) v) split ∙ take_before text name in
    let read = λ (c : ℤ) (e' : parse_int text ≡ some c).
      sym (with_unit-parsed value name scale c (ap parse_int taken ∙ e')) ∙ h in
    elim (Option-cases (parse_int text)) [
      | inl bad ↦ absurd (ground (arith, taken))
      | inr (negsuc count, bad) ↦ absurd (cc (read (negsuc count) bad))
      | inr (pos count, good) ↦
          let k = scaled-fits scale count s p (read (pos count) good) in
          record {
            place = 0;
            name = name;
            scale = scale;
            text = text;
            count = count;
            listed = refl;
            splits = split;
            parsed = good;
            product = k.0;
            fits = k.1;
          }
    ]

try_units-IsSize :
    (value : Bytes) (us : List (Bytes × ℕ)) (s : ℤ)
    → All (λ u. 0 < u.1) us
    → try_units value us ≡ ok s
    → IsSize us value s
unfolding try_units
try_units-IsSize value [] s p h = absurd cc
try_units-IsSize value ((name, scale) ∷ us) s p h = elim (Bool-cases (ends_with name value)) [
  | inl e ↦ with_unit-IsSize value name scale us s p.0 e (rw e at h)
  | inr e ↦
      let k = try_units-IsSize value us s p.1 (rw e at h) in
      record {
        place = suc k.place;
        name = k.name;
        scale = k.scale;
        text = k.text;
        count = k.count;
        listed = k.listed;
        splits = k.splits;
        parsed = k.parsed;
        product = k.product;
        fits = k.fits;
      }
]

-- Whatever text is read as a size: it is a number that is not negative, in front of one of the
-- units, and the size is the exact product, which fits an `int64`: nothing overflows.
pub unmarshal_size-IsSize :
    (value : Bytes) (s : ℤ) → unmarshal_size value ≡ ok s → IsSize units value s
unfolding unmarshal_size
unmarshal_size-IsSize value s h = try_units-IsSize value units s (omega arith) h
