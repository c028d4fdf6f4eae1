-- ===== src/Tests/Service.antt =====
-- The service controller against a Windows whose service goes from stopped to running.
use cacic_agente.Base.{ℕ, ◌+◌, ◌≢◌, true, none, some, List, [], ◌∷◌, arith, pos}
use cacic_agente.Service.Errors.{other}
use cacic_agente.Service.Scm.{
  State, stopped, start_pending, running, Call, start_service, sleep, Scm, Controller,
}
use cacic_agente.Service.Wait.{wait_pending}
use cacic_agente.Service.Wait.Laws.{IsClock, IsBounded, wait_pending_ends, duration}
use cacic_agente.Service.Handles.{EndsIn, Closed}
use cacic_agente.Service.Operations.{start, stop}
use cacic_agente.Service.Operations.Sequence.{
  perform_all, perform_all-Closed, asks_running, starts, stops, uninstalls,
}
use cacic_agente.Service.Operations.Total.{start-stop_end}

-- Started once, pending while nothing has slept since, and running then.
abbrev state_of : List Call → State
state_of [] = stopped
state_of (start_service ∷ cs) = start_pending
state_of (sleep n ∷ cs) = running
state_of (_ ∷ cs) = state_of cs

abbrev slept : List Call → ℕ
slept [] = 0
slept (c ∷ cs) = slept cs + duration c

abbrev windows : Scm
windows = record {
  has_manager = λ cs. true;
  has_service = λ cs. true;
  status = λ cs. some (record { state = state_of cs; check_point = 0; wait_hint = 20000 });
  control = λ cs. stopped;
  starts = λ cs. true;
  deletes = λ cs. true;
  last_error = λ cs. other;
  uptime = slept;
}

windows-IsClock : IsClock windows
windows-IsClock c h = omega arith

windows-IsBounded : IsBounded windows 0
windows-IsBounded h st e = ground arith

abbrev fresh : Controller
fresh = record {
  manager = none;
  service = none;
  last_error = "";
  code = pos 0;
  opened = [];
  next = 0;
  calls = [];
}

perform_all-Closed_example :
    EndsIn
      (perform_all windows 40 (asks_running ∷ starts ∷ stops ∷ uninstalls ∷ []) fresh)
      (λ _ t. Closed fresh t)
perform_all-Closed_example =
    perform_all-Closed windows 40 (asks_running ∷ starts ∷ stops ∷ uninstalls ∷ []) fresh
      (tt, tt, tt)

wait_pending_ends_example : wait_pending windows 33 fresh ≢ none
wait_pending_ends_example =
    wait_pending_ends windows windows-IsClock 0 windows-IsBounded 33 fresh (omega arith)

start-stop_end_example : (start windows 33 fresh ≢ none) × (stop windows 33 fresh ≢ none)
start-stop_end_example =
    start-stop_end windows windows-IsClock 0 windows-IsBounded 33 (omega arith) fresh
