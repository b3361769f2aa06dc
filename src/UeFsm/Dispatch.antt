-- ===== src/UeFsm/Dispatch.antt =====
-- Which handlers an event of a UE runs.
use linkerepc.Prelude.{
  ℕ, zero, suc, ◌<◌, ◌≤◌, ◌≡◌, ◌≢◌, inl, inr, refl, sym, ap, ◌∙◌, arith, true, none, some, ltb,
  ◌==◌, if◌then◌else◌, Option, Option-cases, Bool-cases, subst, eqb-true, eqb-false,
}
use linkerepc.UeFsm.{
  Ue, Event, Handler, UeState, Fsm, state_end, maximum_event, unexpected_event, set_parent_state,
  fsm_new, handler_of, apply, handle_event, act, enter_state, leave, run_in, run,
}

-- The handler of an event: the state's own; or the nearest one above it; or the one for unexpected events.
pub data Resolves {D E : Type 0} (f : Fsm D E) (event : ℕ) : ℕ → Handler D E → Type 0 where
  own : {p : ℕ} {h : Handler D E} → (f.obj p).event_handler event ≡ some h → Resolves f event p h
  inherited :
      {p q : ℕ} {h : Handler D E}
      → (f.obj p).event_handler event ≡ none
      → (f.obj p).p_parent_state ≡ some q
      → Resolves f event q h
      → Resolves f event p h
  unhandled :
      {p : ℕ}
      → (f.obj p).event_handler event ≡ none
      → (f.obj p).p_parent_state ≡ none
      → Resolves f event p unexpected_event

module _ {D E : Type 0} (f : Fsm D E) (event k p : ℕ) where
  handler_of-own :
      (h : Handler D E)
      → (f.obj p).event_handler event ≡ some h
      → handler_of (suc k) f p event ≡ some h
  unfolding handler_of
  handler_of-own h e = rw e refl

  handler_of-none :
      (f.obj p).event_handler event ≡ none
      → (f.obj p).p_parent_state ≡ none
      → handler_of (suc k) f p event ≡ some unexpected_event
  unfolding handler_of
  handler_of-none e g = rw e (rw g refl)

  handler_of-parent :
      (q : ℕ)
      → (f.obj p).event_handler event ≡ none
      → (f.obj p).p_parent_state ≡ some q
      → handler_of (suc k) f p event ≡ handler_of k f q event
  unfolding handler_of
  handler_of-parent q e g = rw e (rw g refl)

-- In a machine whose parents go down in rank, an event is handled with as many calls as the rank of the state and
-- one more, by the handler that it resolves to.
pub handler_of-Resolves :
    {D E : Type 0} (f : Fsm D E) (event : ℕ) (rank : ℕ → ℕ)
    → ((p q : ℕ) → (f.obj p).p_parent_state ≡ some q → rank q < rank p)
    → (k p : ℕ) → rank p < k
    → (h : Handler D E) × (handler_of k f p event ≡ some h) × Resolves f event p h
handler_of-Resolves f event rank down zero p l = absurd (omega arith)
handler_of-Resolves f event rank down (suc k) p l =
    elim (Option-cases ((f.obj p).event_handler event)) [
      | inr (h, e) ↦ (h, handler_of-own f event k p h e, own e)
      | inl e ↦ elim (Option-cases (f.obj p).p_parent_state) [
        | inl g ↦ (unexpected_event, handler_of-none f event k p e g, unhandled e g)
        | inr (q, g) ↦
            let (h, c, r) = handler_of-Resolves f event rank down k q (omega (arith, down p q g)) in
            (h, handler_of-parent f event k p q e g ∙ c, inherited e g r)
      ]
    ]

abbrev rank : ℕ → ℕ
rank p = if p == 2 then 1 else 0

module _ {D E : Type 0} (obj : ℕ → UeState D E)
    (flat : (p : ℕ) → (obj p).p_parent_state ≡ none) where
  parents : (p q : ℕ) → ((fsm_new obj).obj p).p_parent_state ≡ some q → (p ≡ 2) × (q ≡ 1)
  unfolding fsm_new set_parent_state
  parents p q e = elim (Bool-cases (2 == p)) [
    | inl c ↦ (
      ground arith,
      one (
          sym (
            ap
              (λ z.
                (if z then (record (obj p) { p_parent_state = some 1 }) else obj p).p_parent_state)
              c)
          ∙ e),
    )
    | inr c ↦ absurd (
        none-some (
          sym (flat p)
          ∙ sym (
              ap
                (λ z.
                  (if z
                    then (record (obj p) { p_parent_state = some 1 })
                    else obj p).p_parent_state)
                c)
          ∙ e))
  ]
    where
      one : some 1 ≡ some q → q ≡ 1
      one g = cc

      none-some : none ≡ some q → ⊥
      none-some g = absurd cc

module _ {D E : Type 0} (obj : ℕ → UeState D E) (ue : Ue D) (ev : Event E) where
  abbrev fsm : Fsm D E
  fsm = fsm_new obj

  p_state-made : ue.state < 8 → fsm.p_state ue.state ≡ some ue.state
  unfolding fsm_new
  p_state-made l = ground arith

  p_state-missing : 8 ≤ ue.state → fsm.p_state ue.state ≡ none
  unfolding fsm_new
  p_state-missing l = ground arith

  handled :
      (h : Handler D E)
      → ev.event < maximum_event
      → handler_of 2 fsm ue.state ev.event ≡ some h
      → handle_event 2 fsm ue.state ue ev ≡ some (h ue ev)
  unfolding handle_event
  handled h l e =
      ap (λ c. if c then apply (handler_of 2 fsm ue.state ev.event) ue ev else none)
        (ltb-true ev.event l)
      ∙ ap (λ o. apply o ue ev) e
    where
      ltb-true : (n : ℕ) → n < maximum_event → ltb n maximum_event ≡ true
      ltb-true n g = ground arith

-- How an action, if there is one, takes a UE from one state to the next.
abbrev pub Follows : {D E : Type 0} → Option (Handler D E) → Event E → Ue D → Ue D → Type 0
Follows none ev x y = y ≡ x
Follows (some action) ev x y = y ≡ (action x ev).1

act-Follows :
    {D E : Type 0} (o : Option (Handler D E)) (ev : Event E) (x : Ue D)
    → Follows o ev x (act o ev x)
act-Follows none ev x = refl
act-Follows (some action) ev x = refl

module _ {D E : Type 0} (obj : ℕ → UeState D E) where
  -- The entry and exit actions of the machine are those that the objects were made with.
  actions : (q : ℕ) → ((fsm_new obj).obj q).enter ≡ (obj q).enter
  unfolding fsm_new set_parent_state
  actions q = elim (Bool-cases (2 == q)) [
    | inl c ↦ ap (λ z. (if z then (record (obj q) { p_parent_state = some 1 }) else obj q).enter) c
    | inr c ↦ ap (λ z. (if z then (record (obj q) { p_parent_state = some 1 }) else obj q).enter) c
  ]

  exits : (q : ℕ) → ((fsm_new obj).obj q).exit ≡ (obj q).exit
  unfolding fsm_new set_parent_state
  exits q = elim (Bool-cases (2 == q)) [
    | inl c ↦ ap (λ z. (if z then (record (obj q) { p_parent_state = some 1 }) else obj q).exit) c
    | inr c ↦ ap (λ z. (if z then (record (obj q) { p_parent_state = some 1 }) else obj q).exit) c
  ]

  -- The entry action, in a state with an object and in one without.
  enters :
      (ev : Event E) (y : Ue D)
      → (y.state < 8 → Follows (obj y.state).enter ev y (enter_state (fsm_new obj) ev y))
        × (8 ≤ y.state → enter_state (fsm_new obj) ev y ≡ y)
  enters ev y = (
    λ l.
        subst
          (λ o.
            Follows (obj y.state).enter ev y
              (elim o [ none ↦ y | some q ↦ act ((fsm_new obj).obj q).enter ev y ]))
          (sym (p_state-made obj y ev l))
          (subst (λ o. Follows (obj y.state).enter ev y (act o ev y)) (sym (actions y.state))
            (act-Follows (obj y.state).enter ev y)),
    λ l.
        ap (λ o. elim o [ none ↦ y | some q ↦ act ((fsm_new obj).obj q).enter ev y ])
          (p_state-missing obj y ev l),
  )

-- In the machine as it is made, every event in a state that has an object is handled, by the handler that it
-- resolves to, whose result is that of the machine. If the handler leaves the state, the exit action of the
-- state, if it has one, comes next, and then the entry action of the state that the UE is in by then, if that
-- state has an object and the object an entry action; otherwise there is no other action.
pub run-fsm_new :
    {D E : Type 0} (obj : ℕ → UeState D E) (ue : Ue D) (ev : Event E)
    → ((p : ℕ) → (obj p).p_parent_state ≡ none)
    → ev.event < maximum_event
    → ue.state < 8
    → (h : Handler D E) × Resolves (fsm_new obj) ev.event ue.state h
      × ((h ue ev).1.state ≡ ue.state → run (fsm_new obj) ue ev ≡ some (h ue ev))
      × ((h ue ev).1.state ≢ ue.state
          → (y : Ue D) × (z : Ue D) × (run (fsm_new obj) ue ev ≡ some ((h ue ev).0, z))
            × Follows (obj ue.state).exit ev (h ue ev).1 y
            × (y.state < 8 → Follows (obj y.state).enter ev y z)
            × (8 ≤ y.state → z ≡ y))
unfolding run
run-fsm_new obj ue ev flat l m =
    let f = fsm_new obj in
    let (h, c, r) =
      handler_of-Resolves f ev.event rank
        (λ p q e. let (a, b) = parents obj flat p q e in ground arith) 2 ue.state (ground arith) in
    let steps : run_in 2 f ue ev (f.p_state ue.state)
        ≡ leave f ue.state ue.state ev (some (h ue ev)) =
      ap (run_in 2 f ue ev) (p_state-made obj ue ev m)
      ∙ ap (leave f ue.state ue.state ev) (handled obj ue ev h l c) in
    let left = act (f.obj ue.state).exit ev (h ue ev).1 in
    let after = enter_state f ev left in
    let entry = enters obj ev left in
    (
      h,
      r,
      (λ e.
          steps
          ∙ ap (λ z. some ((h ue ev).0, if z then (h ue ev).1 else after))
              (eqb-true (h ue ev).1.state ue.state e)),
      (λ d. (
        left,
        after,
        steps
            ∙ ap (λ z. some ((h ue ev).0, if z then (h ue ev).1 else after))
                (eqb-false (h ue ev).1.state ue.state d),
        subst (λ o. Follows o ev (h ue ev).1 left) (exits obj ue.state)
            (act-Follows (f.obj ue.state).exit ev (h ue ev).1),
        entry.0,
        entry.1,
      )),
    )

-- In the states that wait for a modify-bearer response of the PGW, and in the end state, the machine as it is
-- made has no object: any event, the awaited response too, ends the UE without an action.
pub run-missing :
    {D E : Type 0} (obj : ℕ → UeState D E) (ue : Ue D) (ev : Event E)
    → 8 ≤ ue.state
    → run (fsm_new obj) ue ev ≡ some (true, record ue { state = state_end })
unfolding run unexpected_event
run-missing obj ue ev l = ap (run_in 2 (fsm_new obj) ue ev) (p_state-missing obj ue ev l)
