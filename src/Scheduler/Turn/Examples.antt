-- ===== src/Scheduler/Turn/Examples.antt =====
-- The theorems on turn.py at three sessions.
use livekit_hugging_voice.Base.{ℕ, ◌≡◌, refl, true, false, none, List, [], ◌∷◌, arith}
use livekit_hugging_voice.Base.Int.{pos}
use livekit_hugging_voice.Text.{Text, codes, text_eq, text_lt}
use livekit_hugging_voice.Scheduler.Queues
use livekit_hugging_voice.Scheduler.Queues.{Queues}
use livekit_hugging_voice.Scheduler.Turn.{
  TurnJob, TurnScheduler, found_stale, init, submit, Call, submits, cancels, takes, finishes, take,
  run,
}
use livekit_hugging_voice.Scheduler.Turn.Invariant.{
  IsOrderly, init-IsOrderly, run-IsOrderly, Serves, take-Serves,
}
use livekit_hugging_voice.Scheduler.Turn.Accounting.{accounted, submit-accounted_ever_after}
use livekit_hugging_voice.Scheduler.Turn.Starvation.{Waits, serve_all, serve_all-Waits}

abbrev job_of : ℕ → Text → TurnJob
job_of i session = record {
  job_id = i;
  session_id = session;
  turn_id = codes "turn_1";
  turn_revision = pos 0;
  candidate_id = 1;
  audio = [];
}

abbrev idle_scheduler : TurnScheduler ℕ
idle_scheduler = record {
  max_jobs = 4;
  queues = [];
  active = none;
  last_session = none;
  worker = false;
  closed = false;
  futures = [];
  queue_depth = 0;
  stale_results = 0;
}

idle_scheduler-IsOrderly : IsOrderly idle_scheduler
unfolding init
idle_scheduler-IsOrderly = init-IsOrderly 4 idle_scheduler refl

abbrev one_waits : TurnScheduler ℕ
one_waits = record idle_scheduler {
  queues = (codes "c", job_of 1 (codes "c") ∷ []) ∷ [];
  worker = true;
  queue_depth = 1;
}

one_waits-IsOrderly : IsOrderly one_waits
unfolding Queues.queued_count
one_waits-IsOrderly = record {
  tidy = (((refl, tt), tt, tt), ((λ e. cc), tt), omega arith);
  gauge = refl;
  worked = λ h. cc;
}

abbrev history : List (Call ℕ)
history = submits (job_of 2 (codes "a")) ∷ takes ∷ cancels (codes "a") ∷ finishes found_stale ∷ []

run-IsOrderly_example : IsOrderly (run one_waits history)
run-IsOrderly_example = run-IsOrderly one_waits history one_waits-IsOrderly

take-Serves_example : (k : Text) × (job : TurnJob) × Serves k job one_waits (take one_waits)
take-Serves_example = take-Serves one_waits one_waits-IsOrderly (λ e. cc)

submit-accounted_ever_after_example : accounted 1 (run one_waits history) ≡ true
unfolding submit Queues.push Queues.queued_count
submit-accounted_ever_after_example =
    submit-accounted_ever_after (job_of 1 (codes "c")) idle_scheduler one_waits history
      idle_scheduler-IsOrderly refl

abbrev overtakers : List TurnJob
overtakers =
    job_of 2 (codes "a") ∷ job_of 3 (codes "b") ∷ job_of 4 (codes "a") ∷ job_of 5 (codes "b") ∷ []

serve_all-Waits_example :
    Waits (codes "c") (job_of 1 (codes "c")) [] (serve_all 7 overtakers one_waits)
unfolding text_lt text_eq
serve_all-Waits_example =
    serve_all-Waits 7 (codes "c") (job_of 1 (codes "c")) [] overtakers one_waits
      ((refl, tt, (refl, (refl, refl), (refl, (refl, refl), (refl, (refl, refl), tt)))))
      (record { alone = refl; free = refl; alive = refl; open_ = refl; room = omega arith })
