-- ===== src/Scheduler/Stt/Examples.antt =====
-- The theorems on stt.py at two sessions.
use livekit_hugging_voice.Base.{ℕ, ◌≡◌, refl, subst, ◌⊎◌, true, false, none, List, [], ◌∷◌, ◌++◌}
use livekit_hugging_voice.Base.Int.{pos}
use livekit_hugging_voice.Text.{Text, codes, text_eq}
use livekit_hugging_voice.Scheduler.Queues
use livekit_hugging_voice.Scheduler.Queues.{Queues}
use livekit_hugging_voice.Scheduler.Futures.{done}
use livekit_hugging_voice.Scheduler.Stt.{
  SttJob, SttScheduler, found_stale, Call, starts, submits_final, submits_partial, cancels, takes,
  finishes, init, start, submit_final, refuses_partial, submit_partial, aclose, stop_worker, take,
  step, run,
}
use livekit_hugging_voice.Scheduler.Stt.Invariant.{IsSound, reachable-IsSound}
use livekit_hugging_voice.Scheduler.Stt.Priority.{StartsFinal, StartsPartial, take-FinalFirst}
use livekit_hugging_voice.Scheduler.Stt.Accounting.{shutdown-settles_finals}

abbrev job_of : ℕ → Text → SttJob
job_of i session = record {
  job_id = i;
  session_id = session;
  turn_id = codes "turn_1";
  turn_revision = pos 0;
  audio = [];
  final = true;
}

-- a partial job of `a`, then a final one of `b`
abbrev morning : List Call
morning =
    starts ∷ submits_partial (job_of 1 (codes "a")) ∷ submits_final (job_of 2 (codes "b")) ∷ []

abbrev evening : List Call
evening = takes ∷ cancels (codes "a") ∷ finishes found_stale ∷ []

reachable-IsSound_example : IsSound (run (init 4) (morning ++ evening))
reachable-IsSound_example = reachable-IsSound 4 (morning ++ evening)

abbrev both_wait : SttScheduler
both_wait = record {
  max_jobs = 4;
  finals = (codes "b", job_of 2 (codes "b") ∷ []) ∷ [];
  partials = (codes "a", record (job_of 1 (codes "a")) { final = false } ∷ []) ∷ [];
  worker = true;
  running = true;
  closed = false;
  active = none;
  last_final_session = none;
  last_partial_session = none;
  futures = [];
}

run-morning : run (init 4) morning ≡ both_wait
unfolding run step init start submit_final submit_partial refuses_partial Queues.push
    Queues.queued_count Queues.waiting Queues.jobs_of
run-morning = refl

both_wait-IsSound : IsSound both_wait
both_wait-IsSound = subst IsSound run-morning (reachable-IsSound 4 morning)

take-FinalFirst_example :
    StartsFinal both_wait (take both_wait) ⊎ StartsPartial both_wait (take both_wait)
unfolding Queues.queued_count
take-FinalFirst_example = take-FinalFirst both_wait both_wait-IsSound refl refl

abbrev third_waits : SttScheduler
third_waits = record both_wait {
  finals = (codes "b", job_of 2 (codes "b") ∷ []) ∷ (codes "a", job_of 3 (codes "a") ∷ []) ∷ [];
}

shutdown-settles_finals_example :
    done 3 (stop_worker (aclose (run third_waits evening))).futures ≡ true
unfolding submit_final Queues.push Queues.queued_count text_eq
shutdown-settles_finals_example =
    shutdown-settles_finals (job_of 3 (codes "a")) both_wait third_waits evening both_wait-IsSound
      refl
