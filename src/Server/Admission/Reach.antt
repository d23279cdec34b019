-- ===== src/Server/Admission/Reach.antt =====
-- What holds of the count in every order of the steps.
use ollame.Prelude.{ℕ, suc, ◌+◌, ◌≤◌, ◌≡◌, refl, ap, arith, List, [], ◌∷◌, ◌++◌, All, ℤ, pos}
use ollame.Server.Admission.{
  Phase, ready, admitted, refused, finished, loaded, Request, attempt, Move, load, decide, release,
  State, Step, move, arrive, Reachable, start, step,
}

abbrev pub weight : Phase → ℕ
weight admitted = 1
weight ready = 0
weight refused = 0
weight finished = 0
weight (loaded n) = 0

-- How many requests are running.
abbrev pub running : List Request → ℕ
running [] = 0
running (r ∷ requests) = weight r.phase + running requests

running-append : (xs ys : List Request) → running (xs ++ ys) ≡ running xs + running ys
running-append [] ys = omega arith
running-append (x ∷ xs) ys = omega (arith, running-append xs ys)

attempt-weight :
    (limit : ℤ) (count current : ℕ)
    → (attempt limit count current).0 ≡ count + weight (attempt limit count current).1
unfolding attempt
attempt-weight limit count current = ground arith

Move-weight :
    (limit : ℤ) (c c' : ℕ) (p p' : Phase) → Move limit c p c' p' → c' + weight p ≡ c + weight p'
Move-weight limit c c' p p' (load l n) = refl
Move-weight limit c c' p p' (decide l n m) = omega (arith, attempt-weight l n m)
Move-weight limit c c' p p' (release l n) = omega arith

Step-running :
    (s s' : State) → Step s s' → s.count ≡ running s.requests → s'.count ≡ running s'.requests
Step-running s s' (move l before after c c' p p' m) h =
    let r : Request = record { limit = l; phase = p } in
    let r' : Request = record { limit = l; phase = p' } in
    omega (
      arith,
      h,
      Move-weight l c c' p p' m,
      running-append before (r ∷ after),
      running-append before (r' ∷ after),
    )
Step-running s s' (arrive l c requests) h = omega (arith, h)

-- In every state that can be reached the count is the number of requests that run.
pub Reachable-running : (s : State) → Reachable s → s.count ≡ running s.requests
Reachable-running s start = refl
Reachable-running s (step t u r x) = Step-running t u x (Reachable-running t r)

-- All requests have that limit, as long as no reload changes it.
abbrev pub Limited : ℕ → List Request → Type 0
Limited n requests = All (λ r. r.limit ≡ pos (suc n)) requests

attempt-bounded :
    (n count current : ℕ) → count ≤ suc n → (attempt (pos (suc n)) count current).0 ≤ suc n
unfolding attempt
attempt-bounded n count current h = ground arith

Move-bounded :
    (n : ℕ) (limit : ℤ) (c c' : ℕ) (p p' : Phase)
    → limit ≡ pos (suc n)
    → Move limit c p c' p'
    → c ≤ suc n
    → c' ≤ suc n
Move-bounded n limit c c' p p' e (load l k) h = h
Move-bounded n limit c c' p p' e (decide l k m) h =
    rw (ap (λ x. (attempt x k m).0) e) (attempt-bounded n k m h)
Move-bounded n limit c c' p p' e (release l k) h = omega (arith, h)

Limited-middle :
    (n : ℕ) (before after : List Request) (limit : ℤ) (p p' : Phase)
    → Limited n (before ++ record { limit = limit; phase = p' } ∷ after)
    → (limit ≡ pos (suc n)) × Limited n (before ++ record { limit = limit; phase = p } ∷ after)
Limited-middle n [] after limit p p' h = (h.0, (h.0, h.1))
Limited-middle n (r ∷ before) after limit p p' h =
    let (e, k) = Limited-middle n before after limit p p' h.1 in (e, (h.0, k))

Step-bounded :
    (n : ℕ) (s s' : State)
    → Step s s'
    → Limited n s'.requests
    → Limited n s.requests × (s.count ≤ suc n → s'.count ≤ suc n)
Step-bounded n s s' (move l before after c c' p p' m) h =
    let (e, k) = Limited-middle n before after l p p' h in (k, Move-bounded n l c c' p p' e m)
Step-bounded n s s' (arrive l c requests) h = (h.1, λ k. k)

-- Where all requests have the same positive limit, no order of their steps brings the count, which
-- is the number of requests that run, above it.
pub Reachable-Limited :
    (n : ℕ) (s : State) → Reachable s → Limited n s.requests → running s.requests ≤ suc n
Reachable-Limited n s r h = rw (← Reachable-running s r) (bounded s r h)
  where
    bounded : (s : State) → Reachable s → Limited n s.requests → s.count ≤ suc n
    bounded s start h = omega arith
    bounded s (step t u r x) h = let (k, f) = Step-bounded n t u x h in f (bounded t r k)
