-- ===== src/Resilience/Pool/Examples.antt =====
-- Two attempts, of which the first hangs, on a bucket of four with nothing in it.
use repo_agent.Prelude.{ℕ, zero, suc, ◌+◌, ◌<◌, ◌≡◌, refl, false, none, [], ◌∷◌, arith, length}
use repo_agent.Prelude.Int.{pos}
use repo_agent.Resilience.Bucket.{Bucket}
use repo_agent.Resilience.Retry.{value}
use repo_agent.Resilience.Pool.{Opening, opens, Script, hangs, answers, call}
use repo_agent.Resilience.Pool.Stranded.{Opens, AnswersAt, call-strands}

abbrev opening : ℕ → Opening
opening s = record { deadline = none; now = 0; opened = opens s }

abbrev scripts : ℕ → Script ℕ
scripts i = record {
  first = opening i;
  invoked = elim i [ zero ↦ hangs | suc j ↦ answers 7 ];
  again = opening i;
  invoked_again = hangs;
}

abbrev empty_bucket : Bucket
empty_bucket = record { max_size = 4; idle = []; live = []; size = 0; closed = false }

slots_taken : (call scripts (pos 1) empty_bucket).1.size ≡ 2
unfolding call
slots_taken = refl

one_back : (call scripts (pos 1) empty_bucket).1.idle ≡ 1 ∷ []
unfolding call
one_back = refl

before_one : (i : ℕ) → i < 1 → (scripts i).invoked ≡ hangs
before_one zero l = refl
before_one (suc i) l = absurd (omega arith)

second_answers : AnswersAt scripts 1 7
unfolding Opens
second_answers = record {
  opens = λ i l. (i, refl);
  hanging_before = λ i l. before_one i l;
  answered = refl;
}

call-strands_example :
    ((call scripts (pos 1) empty_bucket).0 ≡ value 7)
    × ((call scripts (pos 1) empty_bucket).1.size + length empty_bucket.idle
        ≡ empty_bucket.size + length (call scripts (pos 1) empty_bucket).1.idle + 1)
call-strands_example =
    call-strands scripts 1 7 (pos 1) empty_bucket second_answers (omega arith) refl (omega arith)
