-- ===== src/Service/Wait.antt =====
-- `ServiceController::waitPending`: the wait for a service to leave a pending state, and that it
-- ends: each round sleeps a second at least, and half a minute without progress is the limit.
pub mod Laws
use cacic_agente.Base.{
  ℕ, zero, suc, ◌+◌, ◌-◌, ◌/◌, ◌%◌, ◌^◌, Bool, true, false, not, ◌&&◌, Option, none, some, ◌∷◌, ltb,
  if◌then◌else◌,
}
use cacic_agente.Service.Errors.{SystemError, timeout}
use cacic_agente.Service.Scm.{
  State, stopped, start_pending, stop_pending, running, other_state, Status, Call, sleep, query,
  Scm, Controller, M, ◌>>=◌, ◌>>◌, pure, call, note_error, note_last, query_status,
}

abbrev pub is_pending : State → Bool
is_pending start_pending = true
is_pending stop_pending = true
is_pending _ = false

-- `dwWaitTime`: a tenth of the hint, but between one second and ten.
unfoldable pub wait_time : ℕ → ℕ
wait_time hint =
    if ltb (hint / 10) 1000 then 1000 else if ltb 10000 (hint / 10) then 10000 else hint / 10

-- The difference of two `DWORD`s
abbrev pub dword_sub : ℕ → ℕ → ℕ
dword_sub a b = (a + 2 ^ 32 - b) % 2 ^ 32

module _ (scm : Scm) where
  -- `GetTickCount()`
  abbrev pub ticks : Controller → ℕ
  ticks s = scm.uptime s.calls % 2 ^ 32

  query_failed : M Bool
  query_failed = do note_last scm "Wait Pending, Query Status"; pure false

  timed_out : M Bool
  timed_out = do note_error timeout "Wait Pending"; pure false

  -- The loop, with the rounds left, `dwStartTickCount`, `dwOldCheckPoint` and the last status.
  unfoldable pub wait_loop : ℕ → ℕ → ℕ → Status → M Bool
  unfolding query_failed timed_out
  wait_loop zero start old st s = none
  wait_loop (suc f) start old st s = elim (is_pending st.state) [
    | false ↦ pure true s
    | true ↦
        let t = call query (call (sleep (wait_time st.wait_hint)) s) in
        elim (scm.status t.calls) [
          | none ↦ query_failed t
          | some st' ↦ elim (ltb old st'.check_point) [
            | true ↦ wait_loop f (ticks t) st'.check_point st' t
            | false ↦ elim (ltb 30000 (dword_sub (ticks t) start)) [
              | true ↦ timed_out t
              | false ↦ wait_loop f start old st' t
            ]
          ]
        ]
  ]

  wait_from : ℕ → Option Status → M Bool
  unfolding wait_loop
  wait_from f none s = query_failed s
  wait_from f (some st) s = wait_loop f (ticks s) st.check_point st s

  -- `ServiceController::waitPending`
  unfoldable pub wait_pending : ℕ → M Bool
  unfolding wait_from query_status
  wait_pending f = do st ← query_status scm; wait_from f st
