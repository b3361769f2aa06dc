-- ===== src/UeFsm/Tests.antt =====
-- The state machine of a UE with one handler, of the parent state 1, that moves the UE to state 5.
use linkerepc.Prelude.{
  ℕ, ◌+◌, ◌<◌, ◌≤◌, ◌≡◌, ◌≢◌, refl, arith, true, none, some, ◌==◌, if◌then◌else◌,
}
use linkerepc.UeFsm.{Ue, Event, Handler, UeState, fsm_new, run}
use linkerepc.UeFsm.Dispatch.{Resolves, run-fsm_new}

abbrev moves : Handler ℕ ℕ
moves ue ev = (true, record ue { state = 5 })

abbrev counts : Handler ℕ ℕ
counts ue ev = (true, record ue { rest = ue.rest + 1 })

abbrev states : ℕ → UeState ℕ ℕ
states p = record {
  p_parent_state = none;
  enter = some counts;
  exit = none;
  event_handler = λ e. if p == 1 then some moves else none;
}

abbrev ue2 : Ue ℕ
ue2 = record { state = 2; rest = 0 }

abbrev event3 : Event ℕ
event3 = record { event = 3; info = 0 }

run-fsm_new_example :
    (h : Handler ℕ ℕ) × Resolves (fsm_new states) 3 2 h
    × ((h ue2 event3).1.state ≡ 2 → run (fsm_new states) ue2 event3 ≡ some (h ue2 event3))
    × ((h ue2 event3).1.state ≢ 2
        → (y : Ue ℕ) × (z : Ue ℕ) × (run (fsm_new states) ue2 event3 ≡ some ((h ue2 event3).0, z))
          × (y ≡ (h ue2 event3).1)
          × (y.state < 8 → z ≡ (counts y event3).1)
          × (8 ≤ y.state → z ≡ y))
run-fsm_new_example = run-fsm_new states ue2 event3 (λ p. refl) (omega arith) (omega arith)
