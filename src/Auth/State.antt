-- ===== src/Auth/State.antt =====
-- internal/auth/tokens.go: `State.Update`, which keeps a failing source for a time of grace.
pub mod Grace
use ollame.Prelude.{
  Result, ok, err, ◌>>=◌, ok_injective, bind_ok, Result-cases, ℕ, suc, ◌+◌, ◌≤◌, ◌≡◌, Bool, true,
  false, not, Option, none, some, List, [], ◌∷◌, ◌++◌, Bytes, Dict, lookup, insert, leb,
  if◌then◌else◌,
}
use ollame.Auth.{Error, Entry, Source, TokenSet, new_set}

-- Times are numbers, and `now.Sub(failedAt) >= grace` is `failedAt + grace <= now`.
pub record SourceState : Type 0 where
  pub entries : List Entry
  pub failed_at : ℕ
  pub failed : Bool

abbrev pub State : Type 0
State = Dict SourceState

pub record Failure : Type 0 where
  pub source : Bytes
  pub expired : Bool

-- The zero value of a missing key.
abbrev pub prior_of : Option SourceState → SourceState
prior_of none = record { entries = []; failed_at = 0; failed = false }
prior_of (some p) = p

abbrev pub mark_failed : ℕ → SourceState → SourceState
mark_failed now p = if p.failed then p else record p { failed = true; failed_at = now }

abbrev pub is_expired : ℕ → ℕ → SourceState → Bool
is_expired now grace p = leb (p.failed_at + grace) now

-- The branch for a source that could not be read.
pub fail_source : ℕ → ℕ → SourceState → SourceState
fail_source now grace p =
    let q = mark_failed now p in if is_expired now grace q then record q { entries = [] } else q

-- The state of one source after its result.
pub advance : ℕ → ℕ → SourceState → Source → SourceState
unfolding fail_source
advance now grace p result = elim result.failure [
  | none ↦ record { entries = result.entries; failed_at = 0; failed = false }
  | some _ ↦ fail_source now grace p
]

pub failure_of : ℕ → ℕ → SourceState → Source → List Failure
failure_of now grace p result = elim result.failure [
  | none ↦ []
  | some _ ↦ record { source = result.id; expired = is_expired now grace (mark_failed now p) } ∷ []
]

-- `next.sources`, `effective` and `failures`
pub record Progress : Type 0 where
  pub next : State
  pub effective : List Source
  pub failures : List Failure

abbrev pub round : ℕ → ℕ → State → Source → Progress → Progress
round now grace s result p =
    let prior = prior_of (lookup result.id s) in
    let q = advance now grace prior result in
    record {
      next = insert result.id q p.next;
      effective =
          p.effective ++ record { id = result.id; entries = q.entries; failure = none } ∷ [];
      failures = p.failures ++ failure_of now grace prior result;
    }

pub rounds : ℕ → ℕ → State → List Source → Progress → Progress
rounds now grace s [] p = p
rounds now grace s (result ∷ results) p = rounds now grace s results (round now grace s result p)

abbrev pub start : Progress
start = record { next = []; effective = []; failures = [] }

-- The four results of `Update`.
pub record Updated : Type 0 where
  pub state : State
  pub set : TokenSet
  pub failures : List Failure
  pub error : Option Error

publish : State → Progress → Result Error (TokenSet × List Bytes) → Updated
publish s p (ok (set, _)) = record {
  state = p.next;
  set = set;
  failures = p.failures;
  error = none;
}
publish s p (err e) = record { state = s; set = []; failures = p.failures; error = some e }

unfoldable pub update : State → ℕ → ℕ → List Source → Updated
unfolding publish rounds advance failure_of
update s now grace results =
    let p = rounds now grace s results start in publish s p (new_set p.effective)
