-- ===== src/Server/Admission/Tests.antt =====
-- Two requests that load the count at the same time, with room for one.
use ollame.Prelude.{ℕ, ◌≤◌, ◌≡◌, refl, [], ◌∷◌, pos}
use ollame.Server.Admission.{
  Phase, ready, admitted, loaded, Request, State, Reachable, start, step, move, arrive, load,
  decide, attempt,
}
use ollame.Server.Admission.Reach.{running, Reachable-running, Reachable-Limited}

abbrev request : Phase → Request
request p = record { limit = pos 1; phase = p }

abbrev state : ℕ → Phase → Phase → State
state c p q = record { count = c; requests = request p ∷ request q ∷ [] }

-- Both load, the first is admitted, the second fails in its compare-and-swap.
raced : Reachable (state 1 admitted ready)
unfolding attempt
raced =
    step (state 1 admitted (loaded 0)) _
      (step (state 0 (loaded 0) (loaded 0)) _
        (step (state 0 (loaded 0) ready) _
          (step (state 0 ready ready) _
            (step (record { count = 0; requests = request ready ∷ [] }) _
              (step (record { count = 0; requests = [] }) _ start (arrive (pos 1) 0 []))
              (arrive (pos 1) 0 (request ready ∷ [])))
            (move (pos 1) [] (request ready ∷ []) 0 0 ready (loaded 0) (load (pos 1) 0)))
          (move (pos 1) (request (loaded 0) ∷ []) [] 0 0 ready (loaded 0) (load (pos 1) 0)))
        (move (pos 1) [] (request (loaded 0) ∷ []) 0 1 (loaded 0) admitted (decide (pos 1) 0 0)))
      (move (pos 1) (request admitted ∷ []) [] 1 1 (loaded 0) ready (decide (pos 1) 1 0))

Reachable-running_example :
    (state 1 admitted ready).count ≡ running (state 1 admitted ready).requests
Reachable-running_example = Reachable-running (state 1 admitted ready) raced

Reachable-Limited_example : running (state 1 admitted ready).requests ≤ 1
Reachable-Limited_example = Reachable-Limited 0 (state 1 admitted ready) raced (refl, (refl, tt))
