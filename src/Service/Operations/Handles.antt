-- ===== src/Service/Operations/Handles.antt =====
-- No operation of a `ServiceController` leaves a handle open, or closes one of somebody else.
use cacic_agente.Base.{
  ℕ, Bool, true, false, ◌||◌, String, ◌<>◌, Option, none, some, ◌∷◌, Bool-cases, inl, inr,
  if◌then◌else◌,
}
use cacic_agente.Service.Errors.{error_message, error_code}
use cacic_agente.Service.Scm.{
  Status, State, Scm, Controller, M, call, note_error, pure, open_service_handle, query,
  start_service, control_stop,
}
use cacic_agente.Service.Wait.{wait_pending}
use cacic_agente.Service.Wait.Laws.{Keeps, wait_pending-Keeps}
use cacic_agente.Service.Handles.{
  Idle, Held, Closed, EndsIn, EndsIn-bind, Ends-EndsIn, Held-Keeps, close-Closed, open_service-Held,
}
use cacic_agente.Service.Operations.{
  fail, succeed, with_service, waiting, is_running, judge_running, start, start_from, launch,
  judge_started, not_stopped, stop, stop_from, judge_stopped, is_running_state, is_stopped_state,
  is_stop_pending,
}

module _ (scm : Scm) (s : Controller) (idle : Idle s) where
  -- The rest of an operation closes what is held.
  abbrev pub Closing : M Bool → Type 0
  Closing rest = (t : Controller) → Held s t → EndsIn (rest t) (λ _ u. Closed s u)

  pub fail-Closing : (detail : String) → Closing (fail scm detail)
  unfolding fail note_error
  fail-Closing detail t h =
      let e = scm.last_error t.calls in
      close-Closed s (record t { last_error = detail <> error_message e; code = error_code e }) idle
        h

  pub succeed-Closing : (b : Bool) → Closing (succeed scm b)
  unfolding succeed
  succeed-Closing b t h = close-Closed s t idle h

  waiting-Closing : (f : ℕ) (rest : M Bool) → Closing rest → Closing (waiting scm f rest)
  unfolding waiting
  waiting-Closing f rest closing t h =
      EndsIn-bind (wait_pending scm f t) (λ _. rest) (λ _ u. Keeps t u) (λ _ u. Closed s u)
        (Ends-EndsIn (wait_pending scm f t) (Keeps t) (wait_pending-Keeps scm f t))
        λ _ u k. closing u (Held-Keeps s t u h k)

  with_service-Closed :
      (rest : M Bool) → Closing rest → EndsIn (with_service scm rest s) (λ _ u. Closed s u)
  unfolding with_service
  with_service-Closed rest closing =
      EndsIn-bind (open_service_handle scm s) (λ there. if there then rest else pure false)
        (λ there t. if there then Held s t else Closed s t) (λ _ u. Closed s u)
        (open_service-Held scm s idle) (elim [ true ↦ closing | false ↦ λ t c. c ])

  judge_running-Closing : (st : Option Status) → Closing (judge_running scm st)
  unfolding judge_running
  judge_running-Closing none = fail-Closing _
  judge_running-Closing (some st) = succeed-Closing (is_running_state st.state)

  pub is_running-Closed : EndsIn (is_running scm s) (λ _ t. Closed s t)
  unfolding is_running
  is_running-Closed = with_service-Closed _ (λ t h. judge_running-Closing _ (call query t) h)

  judge_started-Closing : (st : Option Status) → Closing (judge_started scm st)
  unfolding judge_started
  judge_started-Closing none t h = fail-Closing _ t h
  judge_started-Closing (some st) t h = elim (Bool-cases (is_running_state st.state)) [
    | inl alive ↦ rw (alive, judge_started) (succeed-Closing true t h)
    | inr other ↦ rw (other, judge_started) (fail-Closing "Start Service Failed" t h)
  ]

  launch-Closing : (f : ℕ) → Closing (launch scm f)
  unfolding launch
  launch-Closing f t h = elim (Bool-cases (scm.starts (start_service ∷ t.calls))) [
    | inl begun ↦
        rw (begun, launch)
          (waiting-Closing f _
            (λ u k. judge_started-Closing (scm.status (query ∷ u.calls)) (call query u) k)
            (call start_service t) h)
    | inr refused ↦ rw (refused, launch) (fail-Closing "Starting Service" (call start_service t) h)
  ]

  not_stopped-Closing : (st : State) → Closing (not_stopped scm st)
  unfolding not_stopped note_error
  not_stopped-Closing st t h = elim (Bool-cases (is_running_state st)) [
    | inl alive ↦ rw (alive, not_stopped) (close-Closed s t idle h)
    | inr other ↦ rw (other, not_stopped) (close-Closed s t idle h)
  ]

  start_from-Closing : (f : ℕ) (st : Option Status) → Closing (start_from scm f st)
  unfolding start_from
  start_from-Closing f none t h = fail-Closing _ t h
  start_from-Closing f (some st) t h =
      elim (Bool-cases (is_stopped_state st.state || is_stop_pending st.state)) [
        | inl down ↦ rw (down, start_from) (waiting-Closing f _ (launch-Closing f) t h)
        | inr up ↦ rw (up, start_from) (not_stopped-Closing st.state t h)
      ]

  pub start-Closed : (f : ℕ) → EndsIn (start scm f s) (λ _ t. Closed s t)
  unfolding start
  start-Closed f =
      with_service-Closed _
        (λ t h. start_from-Closing f (scm.status (query ∷ t.calls)) (call query t) h)

  judge_stopped-Closing : (st : Option Status) → Closing (judge_stopped scm st)
  unfolding judge_stopped
  judge_stopped-Closing none t h = fail-Closing _ t h
  judge_stopped-Closing (some st) t h = elim (Bool-cases (is_stopped_state st.state)) [
    | inl down ↦ rw (down, judge_stopped) (succeed-Closing true t h)
    | inr other ↦ rw (other, judge_stopped) (fail-Closing "Stop Service Failed" t h)
  ]

  stop_from-Closing : (f : ℕ) (st : State) → Closing (stop_from scm f st)
  unfolding stop_from
  stop_from-Closing f st t h = elim (Bool-cases (is_stopped_state st)) [
    | inl down ↦ rw (down, stop_from) (succeed-Closing true t h)
    | inr up ↦ elim (Bool-cases (is_stop_pending st)) [
      | inl soon ↦
          rw (up, stop_from)
            (rw soon (
              waiting-Closing f _
                (λ u k. judge_stopped-Closing (scm.status (query ∷ u.calls)) (call query u) k) t h))
      | inr other ↦ rw (up, stop_from) (rw other (fail-Closing "Stop Service" t h))
    ]
  ]

  pub stop-Closed : (f : ℕ) → EndsIn (stop scm f s) (λ _ t. Closed s t)
  unfolding stop
  stop-Closed f =
      with_service-Closed _
        (λ t h. stop_from-Closing f (scm.control (control_stop ∷ t.calls)) (call control_stop t) h)
