-- ===== src/Capacity/Examples.antt =====
-- The theorems on capacity.py at a manager of two slots.
use livekit_hugging_voice.Base.{◌+◌, ◌≡◌, refl, ◌≢◌, false, some, [], ◌∷◌, if◌then◌else◌}
use livekit_hugging_voice.Text.{codes}
use livekit_hugging_voice.Capacity.{
  idle, fresh_slot, Telemetry, CapacityManager, claims, begins, completes, count, report,
  refresh_metrics, claim, begin_service_drain, step, run, init,
}
use livekit_hugging_voice.Capacity.Invariant.{IsValid, init-IsValid, run-IsValid}
use livekit_hugging_voice.Capacity.Admission.{report_total, Claimed, claim-Claimed, run-StuckAt}

abbrev no_metrics : Telemetry
no_metrics = record {
  sessions_active = 0;
  sessions_draining = 0;
  sessions_stuck = 0;
  sessions_available = 0;
  sessions_rejected = 0;
}

abbrev two_slots : CapacityManager
two_slots = refresh_metrics (record {
  slots = fresh_slot 0 ∷ fresh_slot 1 ∷ [];
  service_draining = false;
  telemetry = no_metrics;
})

abbrev quarantined : CapacityManager
quarantined =
    run two_slots (claims (codes "session_a") 10 ∷ begins 0 20 ∷ completes 0 false 30 ∷ [])

abbrev draining_service : CapacityManager
draining_service = begin_service_drain quarantined

two_slots-IsValid : IsValid 2 two_slots
unfolding init
two_slots-IsValid = (init-IsValid 2 no_metrics two_slots refl).0

run-IsValid_example : IsValid 2 quarantined
run-IsValid_example =
    run-IsValid 2 two_slots
      (claims (codes "session_a") 10 ∷ begins 0 20 ∷ completes 0 false 30 ∷ []) two_slots-IsValid

report_total_example :
    (report quarantined).active_count
      + (report quarantined).draining_count
      + (report quarantined).stuck_count
      + (if quarantined.service_draining
          then count idle quarantined.slots
          else (report quarantined).available)
    ≡ (report quarantined).total
report_total_example = report_total quarantined

claim-Claimed_example :
    Claimed (codes "session_b") 40 quarantined (claim (codes "session_b") 40 quarantined)
claim-Claimed_example = claim-Claimed (codes "session_b") 40 quarantined

abbrev served : CapacityManager
served = run quarantined (claims (codes "session_b") 40 ∷ [])

run-StuckAt_example : (claim (codes "session_d") 60 served).1 ≢ some 0
unfolding run refresh_metrics step
run-StuckAt_example =
    (run-StuckAt 0 quarantined (claims (codes "session_b") 40 ∷ []) (codes "session_d") 60
      (_, refl, refl) tt).1
