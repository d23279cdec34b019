-- ===== src/Stream/Think/Tests.antt =====
-- Runs of the splitter, and its theorems at concrete input.
use ollame.Prelude.{
  ◌≡◌, ◌≢◌, refl, Bytes, codes, List, [], ◌∷◌, ◌++◌, none, some, false, arith, cut, starts_with,
}
use ollame.Stream.{stopped, out_of_fuel, Emit}
use ollame.Stream.Think.{Text, ThinkSplitter, new_think_splitter, hold, feed}
use ollame.Stream.Think.Bounds.{IsValid, feed-IsValid, feed_error}
use ollame.Stream.Think.Chunks.{gather, split}
use ollame.Stream.Think.Hold.{held, hold-held}
use ollame.Stream.Think.Whole.{nothing, run, run-split}

abbrev collect : Emit Text (List Text)
collect t w = (w ++ t ∷ [], none)

-- An emit function that fails.
abbrev refuse : Emit Text (List Text)
refuse t w = (w, some (stopped (codes "gone")))

abbrev waiting : ThinkSplitter
waiting = record { inside = false; extracted = false; pending = codes "<thi" }

feed_split_tag :
    feed collect (new_think_splitter false) (codes "ab<thi") []
    ≡ (waiting, record { content = codes "ab"; thinking = [] } ∷ [], none)
unfolding feed
feed_split_tag = refl

abbrev chunks : List Bytes
chunks = codes "a<th" ∷ codes "ink>b</thi" ∷ codes "nk>c<think>" ∷ []

split_chunks :
    split false (codes "a<think>b</think>c<think>")
    ≡ record { content = codes "ac<think>"; thinking = codes "b" }
unfolding cut
split_chunks = refl

run-split_example :
    ((run gather false chunks nothing).2 ≡ none)
    × ((run gather false chunks nothing).1 ≡ split false (codes "a<think>b</think>c<think>"))
run-split_example = run-split false chunks

feed-IsValid_example : IsValid (feed collect waiting (codes "nk>x</t") []).0
unfolding starts_with
feed-IsValid_example =
    feed-IsValid collect waiting (codes "nk>x</t") [] (record { begins_tag = refl; once = λ e. cc })

feed_error_example : (feed refuse waiting (codes "x") []).2 ≢ some out_of_fuel
feed_error_example =
    feed_error refuse (λ e. e ≢ some out_of_fuel) (λ e. cc) (λ t w e. cc) waiting (codes "x") []

hold-held_example :
    hold (codes "<think>") (codes "ab<<th") ≡ held (codes "<think>") (codes "ab<<th")
hold-held_example = hold-held (codes "<think>") (codes "ab<<th") (omega arith)
