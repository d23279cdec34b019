-- ===== src/Prelude/Samples.antt =====
-- Runs of the functions on texts.
use mathlib.Core.Path.{◌≡◌, refl}
use mathlib.Core.Bool.{false}
use mathlib.Core.List.{[], ◌∷◌, ◌++◌}
use mathlib.Core.Option.{some}
use ollame.Prelude.Texts.{codes}
use ollame.Prelude.Utf8.{trim_space, quote}
use ollame.Prelude.Json.{compact, valid}

-- A no-break space, and U+2028 and a stray byte in front of a letter of two bytes
trimmed : trim_space (codes " \t{} " ++ (194 ∷ 160 ∷ [])) ≡ codes "{}"
unfolding trim_space
trimmed = refl

quoted :
    quote (codes "a\"<" ++ (226 ∷ 128 ∷ 168 ∷ 255 ∷ 195 ∷ 169 ∷ []))
    ≡ codes "\"a\\\"\\u003c\\u2028\\ufffd" ++ (195 ∷ 169 ∷ b'"' ∷ [])
unfolding quote
quoted = refl

compacted :
    compact (codes " {\"a\" : [1, -2.5e+3 ,true, \"x y\"] }\n")
    ≡ some (codes "{\"a\":[1,-2.5e+3,true,\"x y\"]}")
unfolding compact
compacted = refl

trailing_comma : valid (codes "{\"a\":1,}") ≡ false
unfolding valid
trailing_comma = refl
