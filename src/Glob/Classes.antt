-- ===== src/Glob/Classes.antt =====
-- Escapes in the classes of a glob.
use ollame.Prelude.{◌≡◌, refl, true, ◌∷◌, Bytes, Result-cases, inl, inr, Bool}
use ollame.Glob.{in_class, translate}

-- In a class an escaped hyphen is translated as one without the escape: it stays the sign of a range.
pub translate_hyphen :
    (read : Bool) (rest : Bytes)
    → translate (in_class read) (b'\\' ∷ b'-' ∷ rest) ≡ translate (in_class read) (b'-' ∷ rest)
unfolding translate
translate_hyphen read rest = elim (Result-cases (translate (in_class true) rest)) [
  | inl (t, e) ↦ rw e refl
  | inr (t, e) ↦ rw e refl
]
