-- ===== src/Policy/Runner/Execute/Books.antt =====
-- What the books of a policy run hold: attempts, counters and decisions, and the report of them.
use agentwrap.Prelude.{
  ℕ, suc, ◌+◌, ◌≤◌, ℤ, pos, negsuc, String, ◌≡◌, refl, not, some, List, [], ◌∷◌, ◌++◌, arith,
  length, is_none,
}
use agentwrap.Contract.{RunResult, AttemptSummary}
use agentwrap.Policy.Runner.State.{PolicyRun}
use agentwrap.Policy.Runner.Attempt.{bump}
use agentwrap.Policy.Runner.Execute.{Loop}

-- Attempts carry consecutive numbers, the first of them the one behind `n`.
abbrev pub Numbered : ℕ → List AttemptSummary → Type 0
Numbered n [] = Unit {0}
Numbered n (s ∷ ss) = (s.attempt ≡ suc n) × Numbered (suc n) ss

-- Each attempt carries the number that it has among those on its target.
abbrev pub CountedOn : (ℤ → ℕ) → List AttemptSummary → Type 0
CountedOn f [] = Unit {0}
CountedOn f (s ∷ ss) =
    (s.attempt_on_target ≡ suc (f s.target_index)) × CountedOn (bump f s.target_index) ss

abbrev pub tally : (ℤ → ℕ) → List AttemptSummary → ℤ → ℕ
tally f [] = f
tally f (s ∷ ss) = tally (bump f s.target_index) ss

abbrev pub OwnedBy : String → List AttemptSummary → Type 0
OwnedBy id [] = Unit {0}
OwnedBy id (s ∷ ss) = (s.parent_run_id ≡ id) × OwnedBy id ss

abbrev pub no_counts : ℤ → ℕ
no_counts i = 0

-- The books are in order, with `slack` decisions fewer than attempts at least.
pub record Books (slack : ℕ) (r : PolicyRun) : Type 0 where
  pub numbered : Numbered 0 r.attempts
  pub counted : CountedOn no_counts r.attempts
  pub tallied : r.target_counts ≡ tally no_counts r.attempts
  pub owned : OwnedBy r.id r.attempts
  pub decided : length r.decisions + slack ≤ length r.attempts

pub Numbered-snoc :
    (n : ℕ) (ss : List AttemptSummary) (s : AttemptSummary)
    → Numbered n ss
    → s.attempt ≡ suc (n + length ss)
    → Numbered n (ss ++ s ∷ [])
Numbered-snoc n [] s h e = (omega arith, tt)
Numbered-snoc n (x ∷ ss) s h e = (h.0, Numbered-snoc (suc n) ss s h.1 (omega arith))

pub CountedOn-snoc :
    (f : ℤ → ℕ) (ss : List AttemptSummary) (s : AttemptSummary)
    → CountedOn f ss
    → s.attempt_on_target ≡ suc (tally f ss s.target_index)
    → CountedOn f (ss ++ s ∷ [])
CountedOn-snoc f [] s h e = (e, tt)
CountedOn-snoc f (x ∷ ss) s h e = (h.0, CountedOn-snoc (bump f x.target_index) ss s h.1 e)

pub tally-snoc :
    (f : ℤ → ℕ) (ss : List AttemptSummary) (s : AttemptSummary)
    → tally f (ss ++ s ∷ []) ≡ bump (tally f ss) s.target_index
tally-snoc f [] s = refl
tally-snoc f (x ∷ ss) s = tally-snoc (bump f x.target_index) ss s

pub OwnedBy-snoc :
    (id : String) (ss : List AttemptSummary) (s : AttemptSummary)
    → OwnedBy id ss
    → s.parent_run_id ≡ id
    → OwnedBy id (ss ++ s ∷ [])
OwnedBy-snoc id [] s h e = (e, tt)
OwnedBy-snoc id (x ∷ ss) s h e = (h.0, OwnedBy-snoc id ss s h.1 e)

pub bump_self : (f : ℤ → ℕ) (i : ℤ) → bump f i i ≡ suc (f i)
bump_self f (pos n) = ground arith
bump_self f (negsuc n) = ground arith

-- What an attempt leaves as it was.
pub record SameBooks (r r' : PolicyRun) : Type 0 where
  pub same_id : r'.id ≡ r.id
  pub same_attempts : r'.attempts ≡ r.attempts
  pub same_decisions : r'.decisions ≡ r.decisions
  pub same_counts : r'.target_counts ≡ r.target_counts
  pub same_alternatives : r'.alternatives ≡ r.alternatives

pub SameBooks-refl : {r : PolicyRun} → SameBooks r r
SameBooks-refl = record {
  same_id = refl;
  same_attempts = refl;
  same_decisions = refl;
  same_counts = refl;
  same_alternatives = refl;
}

pub Books-same : {k : ℕ} {r r' : PolicyRun} → SameBooks r r' → Books k r → Books k r'
Books-same {k} {r} {r'} s b = record {
  numbered = rw s.same_attempts b.numbered;
  counted = rw s.same_attempts b.counted;
  tallied = rw (s.same_attempts, s.same_counts) b.tallied;
  owned = rw (s.same_attempts, s.same_id) b.owned;
  decided = rw (s.same_attempts, s.same_decisions) b.decided;
}

-- The final result tells of the run what its books hold, and of its error what Wait returns.
pub record IsReport (r : PolicyRun) (result : RunResult) : Type 0 where
  pub attempts_told : result.metadata.attempts ≡ r.attempts
  pub attempt_told : result.metadata.attempt ≡ length r.attempts
  pub final_attempt_told : result.metadata.policy.final_attempt ≡ length r.attempts
  pub decisions_told : result.metadata.policy.decisions ≡ r.decisions
  pub dropped_told : result.metadata.policy.dropped_events ≡ r.stream.dropped
  pub parent_told : result.metadata.parent_run_id ≡ r.id
  pub error_told : result.err ≡ r.wait_err
  pub exhausted_told : result.metadata.policy.exhausted ≡ not (is_none r.wait_err)

-- The run has ended with its books in order and a report of them.
pub record Reported (r : PolicyRun) : Type 0 where
  pub books : Books 0 r
  pub report : RunResult
  pub returned : r.result ≡ some report
  pub reports : IsReport r report

abbrev pub InOrder : Loop → Type 0
InOrder l = Books 0 l.run
