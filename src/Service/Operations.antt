-- ===== src/Service/Operations.antt =====
-- The operations of a `ServiceController`: each opens its handles, and closes them on every path.
pub mod Handles
pub mod Removal
pub mod Sequence
pub mod Total
use cacic_agente.Base.{
  ℕ, Bool, true, false, not, ◌||◌, String, Option, none, some, ◌∷◌, if◌then◌else◌, is_some,
}
use cacic_agente.Service.Errors.{SystemError, service_exists}
use cacic_agente.Service.Scm.{
  State, stopped, start_pending, stop_pending, running, other_state, Status, Call, open_service,
  create_service, start_service, control_stop, delete_service, Scm, Controller, M, ◌>>=◌, ◌>>◌,
  pure, call, close, close_manager, close_service, note_error, note_last, open_manager_handle,
  service_handle, open_service_handle, query_status,
}
use cacic_agente.Service.Wait.{wait_pending}

abbrev pub is_running_state : State → Bool
is_running_state running = true
is_running_state _ = false

abbrev pub is_stopped_state : State → Bool
is_stopped_state stopped = true
is_stopped_state _ = false

abbrev is_stop_pending : State → Bool
is_stop_pending stop_pending = true
is_stop_pending _ = false

module _ (scm : Scm) where
  -- Notes the error, closes the handles and returns false.
  unfoldable pub fail : String → M Bool
  unfolding note_last close
  fail detail = do note_last scm detail; close; pure false

  unfoldable pub succeed : Bool → M Bool
  unfolding close
  succeed b = do close; pure b

  -- What an operation does once `open` has succeeded; it returns false if that failed.
  with_service : M Bool → M Bool
  with_service rest = do there ← open_service_handle scm; if there then rest else pure false

  -- `this->waitPending()`, whose result nobody reads
  waiting : ℕ → M Bool → M Bool
  waiting f rest = do _ ← wait_pending scm f; rest

  -- `ServiceController::isRunning`
  judge_running : Option Status → M Bool
  unfolding fail succeed
  judge_running none = fail "Service is Running, Query Status"
  judge_running (some st) = succeed (is_running_state st.state)

  unfoldable pub is_running : M Bool
  unfolding with_service judge_running query_status
  is_running = with_service do st ← query_status scm; judge_running st

  -- `ServiceController::start`, after the second query
  judge_started : Option Status → M Bool
  unfolding fail succeed
  judge_started none = fail "Start Service on Query Status"
  judge_started (some st) =
      if is_running_state st.state then succeed true else fail "Start Service Failed"

  -- `StartService`
  try_start : M Bool
  try_start s = let t = call start_service s in some (scm.starts t.calls, t)

  launch : ℕ → M Bool
  unfolding fail waiting try_start judge_started query_status
  launch f = do
    begun ← try_start
    if begun then waiting f (query_status scm >>= judge_started) else fail "Starting Service"

  not_stopped : State → M Bool
  unfolding close note_last
  not_stopped st = do
    close
    if is_running_state st
        then pure true
        else (do note_last scm "Start Service, service is not stopped"; pure false)

  -- `ServiceController::start`, after the first query
  start_from : ℕ → Option Status → M Bool
  unfolding fail waiting not_stopped launch
  start_from f none = fail "Start Service on Query Status"
  start_from f (some st) =
      if is_stopped_state st.state || is_stop_pending st.state
      then waiting f (launch f)
      else not_stopped st.state

  -- `ServiceController::start`, with the rounds of each of its waits
  unfoldable pub start : ℕ → M Bool
  unfolding with_service start_from query_status
  start f = with_service do st ← query_status scm; start_from f st

  judge_stopped : Option Status → M Bool
  unfolding fail succeed
  judge_stopped none = fail "Stop Service, Query Status"
  judge_stopped (some st) =
      if is_stopped_state st.state then succeed true else fail "Stop Service Failed"

  stop_from : ℕ → State → M Bool
  unfolding fail succeed waiting judge_stopped query_status
  stop_from f st =
      if is_stopped_state st
      then succeed true
      else if is_stop_pending st
      then waiting f (query_status scm >>= judge_stopped)
      else fail "Stop Service"

  -- `ControlService(..., SERVICE_CONTROL_STOP, &lpsStatus)`, and the state that is then read
  control_service : M State
  control_service s = let t = call control_stop s in some (scm.control t.calls, t)

  -- `ServiceController::stop`
  unfoldable pub stop : ℕ → M Bool
  unfolding with_service stop_from control_service
  stop f = with_service do st ← control_service; stop_from f st

  -- `ServiceController::isInstalled`
  unfoldable pub is_installed : M Bool
  unfolding open_manager_handle service_handle
  is_installed = do
    managed ← open_manager_handle scm
    if managed
        then (do
          there ← service_handle scm open_service
          (if there then close_service scm else pure tt)
          close_manager scm
          pure there)
        else pure false

  -- `ServiceController::install` of a service that is not installed
  pub create : M Bool
  unfolding open_manager_handle service_handle fail succeed note_last
  create = do
    managed ← open_manager_handle scm
    if managed
        then (do
          created ← service_handle scm create_service
          if created then succeed true else fail "Install Service, Handle gets null")
        else (do note_last scm "Install Service"; pure false)

  already_there : M Bool
  unfolding note_error
  already_there = do note_error service_exists "Install Service"; pure false

  -- `ServiceController::install`
  unfoldable pub install : M Bool
  unfolding already_there
  install = do there ← is_installed; if there then already_there else create

  try_delete : M Bool
  try_delete s = let t = call delete_service s in some (scm.deletes t.calls, t)

  not_removed : String → M Bool
  unfolding note_last
  not_removed detail = do note_last scm detail; pure false

  delete_held : M Bool
  unfolding fail succeed try_delete
  delete_held = do gone ← try_delete; if gone then succeed true else fail "Uninstall Service"

  pub remove_service : M Bool
  remove_service = do
    there ← open_service_handle scm
    if there then delete_held else not_removed "Uninstall Service, Open Service Handle Failed"

  close_stale : M (Unit {0})
  unfolding close
  close_stale s = if is_some s.manager || is_some s.service then close s else some (tt, s)

  pub stop_and_remove : ℕ → M Bool
  stop_and_remove f = do
    done ← stop f
    if done then remove_service else not_removed "Uninstall Service, can't stop service"

  -- `ServiceController::uninstall`
  unfoldable pub uninstall : ℕ → M Bool
  unfolding close_stale
  uninstall f = do
    close_stale
    alive ← is_running
    if alive then stop_and_remove f else remove_service
