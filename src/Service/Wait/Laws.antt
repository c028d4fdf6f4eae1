-- ===== src/Service/Wait/Laws.antt =====
-- The wait ends, whatever Windows answers, and touches no handle.
use cacic_agente.Base.{
  ℕ, zero, suc, ◌+◌, ◌-◌, ◌*◌, ◌/◌, ◌%◌, ◌^◌, ◌≤◌, ◌<◌, ◌≡◌, ◌≢◌, refl, false, Option, none, some,
  List, ◌∷◌, ltb, arith, Bool-cases, Option-cases, inl, inr,
}
use cacic_agente.Service.Scm.{
  Status, Call, sleep, query, Scm, Controller, call, note_last, note_error,
}
use cacic_agente.Service.Wait.{
  is_pending, wait_time, wait_loop, wait_pending, ticks, dword_sub, query_failed, timed_out,
}

wait_time_bounds : (hint : ℕ) → (1000 ≤ wait_time hint) × (wait_time hint ≤ 10000)
unfolding wait_time
wait_time_bounds hint = ground arith

-- The milliseconds that a call takes at least.
abbrev pub duration : Call → ℕ
duration (sleep n) = n
duration _ = 0

-- Time goes on, by what is slept at least and by less than 13 days more in one call.
abbrev pub IsClock : Scm → Type 0
IsClock scm =
    (c : Call) (h : List Call)
    → (scm.uptime h + duration c ≤ scm.uptime (c ∷ h))
      × (scm.uptime (c ∷ h) ≤ scm.uptime h + duration c + 2 ^ 30)

module _ (scm : Scm) (bound : ℕ) where
  -- The check point that Windows reports stays within a bound.
  abbrev pub IsBounded : Type 0
  IsBounded = (h : List Call) (st : Status) → scm.status h ≡ some st → st.check_point ≤ bound

-- The difference of two tick counts is the time between them, while that is below 2 ^ 32 ms.
dword_sub-ticks : (a b : ℕ) → a ≤ b → b - a < 2 ^ 32 → dword_sub (b % 2 ^ 32) (a % 2 ^ 32) ≡ b - a
dword_sub-ticks a b h k = omega arith

early_time :
    (a b : ℕ)
    → a ≤ b
    → b - a < 2 ^ 32
    → ltb 30000 (dword_sub (b % 2 ^ 32) (a % 2 ^ 32)) ≡ false
    → b - a ≤ 30000
early_time a b h k e = ground (arith, dword_sub-ticks a b h k)

round : Controller → Status → Controller
round s st = call query (call (sleep (wait_time st.wait_hint)) s)

module _ (scm : Scm) (s : Controller) where
  query_failed_ends : query_failed scm s ≢ none
  unfolding query_failed note_last note_error
  query_failed_ends e = cc

  timed_out_ends : timed_out scm s ≢ none
  unfolding timed_out note_error
  timed_out_ends e = cc

module _ (scm : Scm) (clock : IsClock scm) where
  -- One round of the loop takes a second at least, and less than 25 days.
  round_time :
      (s : Controller) (st : Status)
      → (scm.uptime s.calls + 1000 ≤ scm.uptime (round s st).calls)
        × (scm.uptime (round s st).calls ≤ scm.uptime s.calls + 10000 + 2 ^ 31)
  unfolding round
  round_time s st =
      let n = wait_time st.wait_hint in
      omega (
        arith,
        wait_time_bounds st.wait_hint,
        clock (sleep n) s.calls,
        clock query (sleep n ∷ s.calls),
      )

  module _ (bound : ℕ) (bounded : IsBounded scm bound) where
    wait_loop_ends :
        (f begin old : ℕ) (st : Status) (s : Controller)
        → begin ≤ scm.uptime s.calls
        → scm.uptime s.calls - begin ≤ 30000
        → old ≤ bound
        → (bound - old) * 32 + (31 - (scm.uptime s.calls - begin) / 1000) < f
        → wait_loop scm f (begin % 2 ^ 32) old st s ≢ none
    unfolding wait_loop round
    wait_loop_ends zero begin old st s b d o m = absurd (omega arith)
    wait_loop_ends (suc f) begin old st s b d o m = elim (Bool-cases (is_pending st.state)) [
      | inl pending ↦ elim (Option-cases (scm.status (round s st).calls)) [
        | inl failed ↦ rw (pending, wait_loop) (rw failed (query_failed_ends scm _))
        | inr (st', found) ↦ elim (Bool-cases (ltb old st'.check_point)) [
          | inl moved ↦
              rw (pending, wait_loop)
                (rw found (
                  rw moved (
                    wait_loop_ends f (scm.uptime (round s st).calls) st'.check_point st'
                      (round s st) (omega arith) (omega arith) (bounded _ st' found)
                      (ground (arith, bounded (round s st).calls st')))))
          | inr stuck ↦
              let u = scm.uptime (round s st).calls in
              let later = round_time s st in
              let near = early_time begin u (omega (arith, later)) (omega (arith, later)) in
              elim (Bool-cases (ltb 30000 (dword_sub (ticks scm (round s st)) (begin % 2 ^ 32)))) [
                | inl late ↦
                    rw (pending, wait_loop) (rw found (rw stuck (rw late (timed_out_ends scm _))))
                | inr early ↦
                    rw (pending, wait_loop)
                      (rw found (
                        rw stuck (
                          rw early (
                            wait_loop_ends f begin old st' (round s st) (omega arith) (near early) o
                              (omega (arith, near early, later))))))
              ]
        ]
      ]
      | inr done ↦ rw (done, wait_loop) (λ e. cc)
    ]

    -- `waitPending` ends, whatever Windows answers, where time goes on by what is slept and by less
    -- than 13 days more in a call, and the check point stays within a bound: 32 rounds for each step of the check point, and 32 more, are enough.
    pub wait_pending_ends :
        (f : ℕ) (s : Controller) → bound * 32 + 32 < f → wait_pending scm f s ≢ none
    unfolding wait_pending
    wait_pending_ends f s enough = elim (Option-cases (scm.status (query ∷ s.calls))) [
      | inl failed ↦ rw (failed, wait_pending) (query_failed_ends scm _)
      | inr (st, found) ↦
          rw (found, wait_pending)
            (wait_loop_ends f (scm.uptime (query ∷ s.calls)) st.check_point st (call query s)
              (omega arith) (omega arith) (bounded _ st found)
              (omega (arith, bounded (query ∷ s.calls) st found)))
    ]

-- The handles are the same.
abbrev pub Keeps : Controller → Controller → Type 0
Keeps s t =
    (t.manager ≡ s.manager) × (t.service ≡ s.service) × (t.opened ≡ s.opened) × (t.next ≡ s.next)

-- If the step ends, the state after it is as stated.
abbrev pub Ends : {A : Type 0} → Option (A × Controller) → (Controller → Type 0) → Type 0
Ends none P = Unit
Ends (some (a, t)) P = P t

module _ (scm : Scm) where
  wait_loop-Keeps :
      (f begin old : ℕ) (st : Status) (s : Controller)
      → Ends (wait_loop scm f begin old st s) (Keeps s)
  unfolding wait_loop note_last note_error round
  wait_loop-Keeps zero begin old st s = tt
  wait_loop-Keeps (suc f) begin old st s = elim (Bool-cases (is_pending st.state)) [
    | inr done ↦ rw (done, wait_loop) (refl, refl, refl, refl)
    | inl pending ↦
        rw (pending, wait_loop)
          (elim (Option-cases (scm.status (round s st).calls)) [
            | inl failed ↦ rw failed (refl, refl, refl, refl)
            | inr (st', found) ↦ rw found (elim (Bool-cases (ltb old st'.check_point)) [
              | inl moved ↦
                  rw moved
                    (wait_loop-Keeps f (ticks scm (round s st)) st'.check_point st' (round s st))
              | inr stuck ↦
                  rw stuck
                    (elim (Bool-cases (ltb 30000 (dword_sub (ticks scm (round s st)) begin))) [
                      | inl late ↦ rw late (refl, refl, refl, refl)
                      | inr early ↦ rw early (wait_loop-Keeps f begin old st' (round s st))
                    ])
            ])
          ])
  ]

  pub wait_pending-Keeps : (f : ℕ) (s : Controller) → Ends (wait_pending scm f s) (Keeps s)
  unfolding wait_pending note_last note_error
  wait_pending-Keeps f s = elim (Option-cases (scm.status (query ∷ s.calls))) [
    | inl failed ↦ rw (failed, wait_pending) (refl, refl, refl, refl)
    | inr (st, found) ↦
        rw (found, wait_pending)
          (wait_loop-Keeps f (ticks scm (call query s)) st.check_point st (call query s))
  ]
