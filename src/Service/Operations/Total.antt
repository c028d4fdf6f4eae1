-- ===== src/Service/Operations/Total.antt =====
-- The operations that wait for the service come to an end.
use cacic_agente.Base.{
  ℕ, ◌+◌, ◌*◌, ◌<◌, ◌≢◌, refl, Bool, true, false, ◌||◌, Option, none, some, ◌∷◌, arith, Bool-cases,
  inl, inr, if◌then◌else◌,
}
use cacic_agente.Service.Scm.{
  Status, State, Scm, Controller, M, call, query, start_service, control_stop, note_error,
  open_service_handle,
}
use cacic_agente.Service.Wait.{wait_pending}
use cacic_agente.Service.Wait.Laws.{IsClock, IsBounded, wait_pending_ends}
use cacic_agente.Service.Operations.{
  with_service, waiting, start, start_from, launch, judge_started, not_stopped, stop, stop_from,
  judge_stopped, is_stopped_state, is_stop_pending,
}

abbrev Total : {A : Type 0} → Option (A × Controller) → Type 0
Total none = ⊥
Total (some r) = Unit

of_ne_none : {A : Type 0} (r : Option (A × Controller)) → r ≢ none → Total r
of_ne_none none h = h refl
of_ne_none (some r) h = tt

to_ne_none : {A : Type 0} (r : Option (A × Controller)) → Total r → r ≢ none
to_ne_none none h e = absurd h
to_ne_none (some r) h e = cc

Total-bind :
    {A B : Type 0} (r : Option (A × Controller)) (f : A → M B)
    → Total r
    → ((a : A) (t : Controller) → Total (f a t))
    → Total (elim r [ none ↦ none | some (a, t) ↦ f a t ])
Total-bind none f h k = absurd h
Total-bind (some (a, t)) f h k = k a t

module _ (scm : Scm) where
  -- The step ends from every state.
  abbrev Ending : {A : Type 0} → M A → Type 0
  Ending rest = (t : Controller) → Total (rest t)

  open_service-Total : Ending (open_service_handle scm)
  unfolding open_service_handle note_error
  open_service-Total t = ground arith

  with_service-Total : (rest : M Bool) → Ending rest → Ending (with_service scm rest)
  unfolding with_service
  with_service-Total rest k t =
      Total-bind (open_service_handle scm t) (λ there. if there then rest else _)
        (open_service-Total t) (elim [ true ↦ k | false ↦ λ u. tt ])

  judge_started-Total : (st : Option Status) → Ending (judge_started scm st)
  unfolding judge_started note_error
  judge_started-Total st t = ground arith

  judge_stopped-Total : (st : Option Status) → Ending (judge_stopped scm st)
  unfolding judge_stopped note_error
  judge_stopped-Total st t = ground arith

  module _ (clock : IsClock scm) (bound : ℕ) (bounded : IsBounded scm bound) (f : ℕ)
      (enough : bound * 32 + 32 < f) where
    waiting-Total : (rest : M Bool) → Ending rest → Ending (waiting scm f rest)
    unfolding waiting
    waiting-Total rest k t =
        Total-bind (wait_pending scm f t) (λ _. rest)
          (of_ne_none (wait_pending scm f t) (wait_pending_ends scm clock bound bounded f t enough))
          (λ _ u. k u)

    launch-Total : Ending (launch scm f)
    unfolding launch note_error
    launch-Total t = elim (Bool-cases (scm.starts (start_service ∷ t.calls))) [
      | inl begun ↦
          rw (begun, launch)
            (waiting-Total _
              (λ u. judge_started-Total (scm.status (query ∷ u.calls)) (call query u))
              (call start_service t))
      | inr refused ↦ rw (refused, launch) tt
    ]

    not_stopped-Total : (st : State) → Ending (not_stopped scm st)
    unfolding not_stopped note_error
    not_stopped-Total st t = ground arith

    start_from-Total : (st : Option Status) → Ending (start_from scm f st)
    unfolding start_from note_error
    start_from-Total none t = tt
    start_from-Total (some st) t =
        elim (Bool-cases (is_stopped_state st.state || is_stop_pending st.state)) [
          | inl down ↦ rw (down, start_from) (waiting-Total _ launch-Total t)
          | inr up ↦ rw (up, start_from) (not_stopped-Total st.state t)
        ]

    stop_from-Total : (st : State) → Ending (stop_from scm f st)
    unfolding stop_from note_error
    stop_from-Total st t = elim (Bool-cases (is_stopped_state st)) [
      | inl down ↦ rw (down, stop_from) tt
      | inr up ↦ elim (Bool-cases (is_stop_pending st)) [
        | inl soon ↦
            rw (up, stop_from)
              (rw soon (
                waiting-Total _
                  (λ u. judge_stopped-Total (scm.status (query ∷ u.calls)) (call query u)) t))
        | inr other ↦ rw (up, stop_from) (rw other tt)
      ]
    ]

    start-Total : Ending (start scm f)
    unfolding start
    start-Total =
        with_service-Total _ (λ t. start_from-Total (scm.status (query ∷ t.calls)) (call query t))

    stop-Total : Ending (stop scm f)
    unfolding stop
    stop-Total =
        with_service-Total _
          (λ t. stop_from-Total (scm.control (control_stop ∷ t.calls)) (call control_stop t))

    -- `start` and `stop` end from every state of the controller, whatever Windows answers, where
    -- time goes on by what is slept and by less than 13 days more in a call, and the check point that it reports stays within a bound: 32 rounds of a wait
    -- for each step of the check point, and 32 more, are enough.
    pub start-stop_end : (s : Controller) → (start scm f s ≢ none) × (stop scm f s ≢ none)
    start-stop_end s =
        (to_ne_none (start scm f s) (start-Total s), to_ne_none (stop scm f s) (stop-Total s))
