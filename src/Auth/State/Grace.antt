-- ===== src/Auth/State/Grace.antt =====
-- How long a failing source is kept, and what an update publishes.
use ollame.Prelude.{
  Result, ok, err, ℕ, ◌+◌, ◌≡◌, refl, sym, ◌∙◌, arith, Bool, true, false, ◌||◌, Option, none, some,
  List, [], ◌∷◌, ◌++◌, ◌↔◌, append-nil, append_assoc, Bytes, bytes_eq, lookup, leb, if◌then◌else◌,
}
use ollame.Auth.{Error, Source, TokenSet, new_set, authenticate}
use ollame.Auth.Sets.{in_force, digest_of, authenticate-in_force}
use ollame.Auth.State.{
  SourceState, State, prior_of, fail_source, advance, Progress, rounds, round, start, publish,
  update,
}

-- The failures of one source at these times, one after the other.
abbrev pub failing : ℕ → List ℕ → SourceState → SourceState
failing grace [] p = p
failing grace (now ∷ times) p = failing grace times (fail_source now grace p)

-- One of the times lies the grace or more behind the first failure.
abbrev pub any_expired : ℕ → ℕ → List ℕ → Bool
any_expired first grace [] = false
any_expired first grace (now ∷ times) = leb (first + grace) now || any_expired first grace times

failing_marked :
    (grace : ℕ) (times : List ℕ) (p : SourceState)
    → p.failed ≡ true
    → (failing grace times p).entries
      ≡ (if any_expired p.failed_at grace times then [] else p.entries)
unfolding fail_source
failing_marked grace [] p h = refl
failing_marked grace (now ∷ times) p h = ground (
  arith,
  failing_marked grace times (record p { entries = [] }) h,
  failing_marked grace times p h,
)

-- A source that was last read well and then fails at all of these times keeps its entries until
-- the grace has run out since the first failure, and has none from then on, whatever the clock
-- does later.
pub failing_entries :
    (grace now : ℕ) (times : List ℕ) (p : SourceState)
    → p.failed ≡ false
    → (failing grace (now ∷ times) p).entries
      ≡ (if any_expired now grace (now ∷ times) then [] else p.entries)
unfolding fail_source
failing_entries grace now times p h =
    let q : SourceState = record p { failed = true; failed_at = now } in
    ground (
      arith,
      failing_marked grace times (record q { entries = [] }) refl,
      failing_marked grace times q refl,
    )

-- The last result of that source.
abbrev pub last_result : Bytes → List Source → Option Source → Option Source
last_result id [] prior = prior
last_result id (r ∷ results) prior =
    last_result id results (if bytes_eq r.id id then some r else prior)

abbrev pub advanced : ℕ → ℕ → State → Bytes → Option Source → Option SourceState
advanced now grace s id none = none
advanced now grace s id (some r) = some (advance now grace (prior_of (lookup id s)) r)

-- What the results of an update come to, source by source.
abbrev pub effective_of : ℕ → ℕ → State → List Source → List Source
effective_of now grace s [] = []
effective_of now grace s (r ∷ results) =
    record {
      id = r.id;
      entries = (advance now grace (prior_of (lookup r.id s)) r).entries;
      failure = none;
    }
    ∷ effective_of now grace s results

rounds-effective :
    (now grace : ℕ) (s : State) (results : List Source) (p : Progress)
    → (rounds now grace s results p).effective ≡ p.effective ++ effective_of now grace s results
unfolding rounds
rounds-effective now grace s [] p = sym (append-nil p.effective)
rounds-effective now grace s (r ∷ results) p =
    rounds-effective now grace s results (round now grace s r p) ∙ append_assoc p.effective _ _

-- After an update that succeeds a credential is accepted under a name exactly if the last source
-- that has the name, read now or kept within its grace, gives it that digest.
pub update-authenticate :
    (sha256 : Bytes → Bytes) (s : State) (now grace : ℕ) (results : List Source)
    → (update s now grace results).error ≡ none
    → (credential n : Bytes)
    → (authenticate sha256 (update s now grace results).set credential ≡ ok n)
      ↔ (digest_of (in_force n (effective_of now grace s results) none) ≡ some (sha256 credential))
unfolding update publish
update-authenticate sha256 s now grace results h credential n =
    rw (← rounds-effective now grace s results start)
      (cases (new_set (rounds now grace s results start).effective) refl h)
  where
    p : Progress
    p = rounds now grace s results start

    cases :
        (r : Result Error (TokenSet × List Bytes))
        → new_set p.effective ≡ r
        → (publish s p r).error ≡ none
        → (authenticate sha256 (publish s p r).set credential ≡ ok n)
          ↔ (digest_of (in_force n p.effective none) ≡ some (sha256 credential))
    cases (ok (set, ws)) e g = authenticate-in_force sha256 p.effective set ws e credential n
    cases (err x) e g = absurd (ground arith)
