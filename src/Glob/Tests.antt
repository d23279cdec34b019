-- ===== src/Glob/Tests.antt =====
-- Runs of internal/glob.
use ollame.Prelude.{◌≡◌, refl, codes, ok, err}
use ollame.Glob.{expression, bad_class}

dots : expression (codes "openai/*.[!a-c]?") ≡ ok (codes "(?s)\\Aopenai/.*\\.[^a-c].\\z")
unfolding expression
dots = refl

open_class : expression (codes "[]a]") ≡ err bad_class
unfolding expression
open_class = refl

-- Both globs give the range of the letters.
escaped_hyphen : expression (codes "[a\\-z]") ≡ expression (codes "[a-z]")
unfolding expression
escaped_hyphen = refl
