-- ===== src/UeFsm.antt =====
-- nw-sae-gw/NwSaeGwUeFsm.c, NwSaeGwUeState.c and nwSaeGwUeUnexpectedEvent of NwSaeGwUe.c: the state
-- machine of a UE in the SAE gateway. State objects are pointers into the store `obj`; `p_state` is the table of
-- the machine. The handlers of the states, which work on a UE whose other fields are `D`, on an event whose other
-- fields are `E`, are given.
pub mod Dispatch
mod Tests
use linkerepc.Prelude.{
  ℕ, zero, suc, Bool, true, false, Option, none, some, ltb, ◌==◌, if◌then◌else◌,
}

pub record Ue (D : Type 0) : Type 0 where
  pub state : ℕ
  pub rest : D

pub record Event (E : Type 0) : Type 0 where
  pub event : ℕ
  pub info : E

-- Whether the handler returns NW_OK, and the UE.
abbrev pub Handler : Type 0 → Type 0 → Type 0
Handler D E = Ue D → Event E → Bool × Ue D

-- `NwSaeUeStateT`, with `none` for NULL
pub record UeState (D E : Type 0) : Type 0 where
  pub p_parent_state : Option ℕ
  pub enter : Option (Handler D E)
  pub exit : Option (Handler D E)
  pub event_handler : ℕ → Option (Handler D E)

-- `NwSaeGwUeFsmT`, with the store of the states
pub record Fsm (D E : Type 0) : Type 0 where
  pub p_state : ℕ → Option ℕ
  pub obj : ℕ → UeState D E

-- NW_SAE_GW_UE_STATE_END and NW_SAE_GW_UE_MAXIMUM_EVENT
abbrev pub state_end : ℕ
state_end = 10

abbrev pub maximum_event : ℕ
maximum_event = 15

-- `nwSaeGwUeUnexpectedEvent`
unfoldable pub unexpected_event : {D E : Type 0} → Handler D E
unexpected_event ue ev = (true, record ue { state = state_end })

-- `nwSaeGwStateSetParentState`
unfoldable pub set_parent_state : {D E : Type 0} → (ℕ → UeState D E) → ℕ → ℕ → ℕ → UeState D E
set_parent_state obj p parent q =
    if p == q then record (obj q) { p_parent_state = some parent } else obj q

-- `NwSaeGwUeFsmNew`: the objects of the states 0 to 7 are made, and state 2, the session created in the SGW,
-- gets state 1, the session created in the gateway, as its parent.
unfoldable pub fsm_new : {D E : Type 0} → (ℕ → UeState D E) → Fsm D E
fsm_new obj = record {
  p_state = λ s. if ltb s 8 then some s else none;
  obj = set_parent_state obj 2 1;
}

-- `nwSaeGwStateHandleEvent`, which calls itself on the parent: a handler of the state, of its parent, or the
-- one for unexpected events. With no fuel left there is none.
abbrev pub choose :
    {D E : Type 0} → Option (Handler D E) → Option (Handler D E) → Option (Handler D E)
choose (some h) up = some h
choose none up = up

unfoldable pub handler_of : {D E : Type 0} → ℕ → Fsm D E → ℕ → ℕ → Option (Handler D E)
handler_of zero f p event = none
handler_of (suc k) f p event =
    choose ((f.obj p).event_handler event) (elim (f.obj p).p_parent_state [
      | none ↦ some unexpected_event
      | some q ↦ handler_of k f q event
    ])

abbrev pub apply : {D E : Type 0} → Option (Handler D E) → Ue D → Event E → Option (Bool × Ue D)
apply none ue ev = none
apply (some h) ue ev = some (h ue ev)

-- `none` is also the failed assertion on the event.
unfoldable pub handle_event :
    {D E : Type 0} → ℕ → Fsm D E → ℕ → Ue D → Event E → Option (Bool × Ue D)
handle_event k f p ue ev =
    if ltb ev.event maximum_event then apply (handler_of k f p ev.event) ue ev else none

-- An action, if there is one; its result is not read.
abbrev pub act : {D E : Type 0} → Option (Handler D E) → Event E → Ue D → Ue D
act none ev ue = ue
act (some h) ev ue = (h ue ev).1

-- The entry action of the state that the UE is in.
abbrev pub enter_state : {D E : Type 0} → Fsm D E → Event E → Ue D → Ue D
enter_state f ev ue = elim (f.p_state ue.state) [ none ↦ ue | some q ↦ act (f.obj q).enter ev ue ]

-- What follows the handling of an event in state `s` with the object `p`.
abbrev pub leave :
    {D E : Type 0} → Fsm D E → ℕ → ℕ → Event E → Option (Bool × Ue D) → Option (Bool × Ue D)
leave f s p ev none = none
leave f s p ev (some (rc, ue)) =
    some (rc, if ue.state == s then ue else enter_state f ev (act (f.obj p).exit ev ue))

abbrev pub run_in : {D E : Type 0} → ℕ → Fsm D E → Ue D → Event E → Option ℕ → Option (Bool × Ue D)
run_in k f ue ev none = some (unexpected_event ue ev)
run_in k f ue ev (some p) = leave f ue.state p ev (handle_event k f p ue ev)

-- `nwSaeGwUeFsmRun`; the state that it writes to `pUeState` is that of the UE. No state is more than one step
-- below another, so that two calls of `nwSaeGwStateHandleEvent` are enough.
unfoldable pub run : {D E : Type 0} → Fsm D E → Ue D → Event E → Option (Bool × Ue D)
run f ue ev = run_in 2 f ue ev (f.p_state ue.state)
