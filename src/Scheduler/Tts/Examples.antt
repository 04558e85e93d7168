-- ===== src/Scheduler/Tts/Examples.antt =====
-- The theorems on tts.py at two sessions and two workers.
use livekit_hugging_voice.Base.{ℕ, ◌≡◌, refl, subst, true, false, none, List, [], ◌∷◌, ◌++◌}
use livekit_hugging_voice.Base.Int.{pos}
use livekit_hugging_voice.Text.{Text, codes, text_eq}
use livekit_hugging_voice.Scheduler.Queues
use livekit_hugging_voice.Scheduler.Queues.Waiting.{mem}
use livekit_hugging_voice.Scheduler.Tts.{
  TtsPriority, final_response, filler_or_explicit_say, TtsJob, TtsScheduler, Call, starts,
  synthesizes, takes, finishes, init, start, synthesize, enqueue, refresh, job_count,
  sessions_waiting, any_runnable, has_runnable_job, take, step, run,
}
use livekit_hugging_voice.Scheduler.Tts.Invariant.{IsCoherent}
use livekit_hugging_voice.Scheduler.Tts.History.{init-IsCoherent, run-IsCoherent}
use livekit_hugging_voice.Scheduler.Tts.Taking.{TakesNext, take-TakesNext}

abbrev job_of : ℕ → Text → TtsPriority → TtsJob
job_of i session priority = record {
  job_id = i;
  token = record {
    session_id = session;
    turn_id = codes "turn_1";
    turn_revision = pos 0;
    generation_id = codes "generation_1";
    epoch = 1;
  };
  text = codes "Hallo.";
  language = codes "de";
  instructions = [];
  ref_audio = none;
  ref_text = none;
  priority = priority;
}

abbrev empty_scheduler : TtsScheduler
empty_scheduler = record {
  runtimes = 2;
  max_jobs = 4;
  queues = [];
  session_order = [];
  active_sessions = [];
  active = [];
  started = false;
  closed = false;
  futures = [];
  emitted = [];
  stale_chunks_dropped = 0;
  tts_queue_depth = 0;
  tts_sessions_waiting = 0;
  tts_active_sessions = 0;
}

empty_scheduler-IsCoherent : IsCoherent empty_scheduler
unfolding init
empty_scheduler-IsCoherent = init-IsCoherent 2 4 empty_scheduler refl

abbrev two_arrive : List Call
two_arrive =
    starts
    ∷ synthesizes (job_of 1 (codes "a") filler_or_explicit_say)
    ∷ synthesizes (job_of 2 (codes "b") final_response)
    ∷ []

abbrev served : List Call
served =
    takes 0
    ∷ takes 1
    ∷ finishes 0 (record { current = true; frames = ([], true) ∷ []; raises = false })
    ∷ []

run-IsCoherent_example : IsCoherent (run empty_scheduler (two_arrive ++ served))
run-IsCoherent_example =
    run-IsCoherent empty_scheduler (two_arrive ++ served) empty_scheduler-IsCoherent

abbrev two_wait : TtsScheduler
two_wait = record empty_scheduler {
  queues =
      (codes "a", job_of 1 (codes "a") filler_or_explicit_say ∷ [])
      ∷ (codes "b", job_of 2 (codes "b") final_response ∷ [])
      ∷ [];
  session_order = codes "a" ∷ codes "b" ∷ [];
  started = true;
  tts_queue_depth = 2;
  tts_sessions_waiting = 2;
}

run-two_arrive : run empty_scheduler two_arrive ≡ two_wait
unfolding run step start synthesize enqueue refresh job_count sessions_waiting mem text_eq
    Queues.push Queues.queued_count Queues.get
run-two_arrive = refl

two_wait-IsCoherent : IsCoherent two_wait
two_wait-IsCoherent =
    subst IsCoherent run-two_arrive
      (run-IsCoherent empty_scheduler two_arrive empty_scheduler-IsCoherent)

take-TakesNext_example : TakesNext 0 two_wait (take 0 two_wait)
unfolding has_runnable_job any_runnable mem
take-TakesNext_example = take-TakesNext 0 two_wait two_wait-IsCoherent refl refl
