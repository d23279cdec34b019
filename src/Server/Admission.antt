-- ===== src/Server/Admission.antt =====
-- internal/server/admission.go: the count of running requests, which all requests change at the
-- same time, and its end in internal/server/server.go.
pub mod Reach
mod Tests
use ollame.Prelude.{
  ℕ, suc, ◌+◌, ◌≡◌, Bool, true, false, ◌&&◌, List, [], ◌∷◌, ◌++◌, ltb, leb, ◌==◌, if◌then◌else◌, ℤ,
  pos, ltb_ℤ, leb_ℤ,
}

-- Where a request is: before a round of the loop, behind the load of the count, or out of it.
pub data Phase : Type 0 where
  ready admitted refused finished : Phase
  loaded : ℕ → Phase

-- A request with the limit of its own snapshot.
pub record Request : Type 0 where
  pub limit : ℤ
  pub phase : Phase

-- The rest of a round: the test of the limit, and the compare-and-swap on the count of now.
pub attempt : ℤ → ℕ → ℕ → ℕ × Phase
attempt limit count current =
    if ltb_ℤ (pos 0) limit && leb_ℤ limit (pos current)
    then (count, refused)
    else if count == current
    then (count + 1, admitted)
    else (count, ready)

-- An atomic step of one request on the count.
pub data Move : ℤ → ℕ → Phase → ℕ → Phase → Type 0 where
  load : (limit : ℤ) (count : ℕ) → Move limit count ready count (loaded count)
  decide :
      (limit : ℤ) (count current : ℕ)
      → Move limit count
          (loaded current)
          (attempt limit count current).0
          (attempt limit count current).1
  release : (limit : ℤ) (count : ℕ) → Move limit (suc count) admitted count finished

pub record State : Type 0 where
  pub count : ℕ
  pub requests : List Request

-- Any request moves, or a new one comes.
pub data Step : State → State → Type 0 where
  move :
      (limit : ℤ) (before after : List Request) (c c' : ℕ) (p p' : Phase)
      → Move limit c p c' p'
      → Step
          (record { count = c; requests = before ++ record { limit = limit; phase = p } ∷ after })
          (record { count = c'; requests = before ++ record { limit = limit; phase = p' } ∷ after })
  arrive :
      (limit : ℤ) (c : ℕ) (requests : List Request)
      → Step
          (record { count = c; requests = requests })
          (record { count = c; requests = record { limit = limit; phase = ready } ∷ requests })

pub data Reachable : State → Type 0 where
  start : Reachable (record { count = 0; requests = [] })
  step : (s s' : State) → Reachable s → Step s s' → Reachable s'
