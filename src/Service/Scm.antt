-- ===== src/Service/Scm.antt =====
-- What the controller asks of Windows, and its own state.
use cacic_agente.Base.{
  ℕ, ℤ, suc, Bool, true, false, String, ◌<>◌, Option, none, some, List, [], ◌∷◌, ◌==◌,
  if◌then◌else◌,
}
use cacic_agente.Service.Errors.{SystemError, error_code, error_message}

-- `dwCurrentState`
pub data State : Type 0 where
  stopped start_pending stop_pending running other_state : State

-- The fields of a `SERVICE_STATUS_PROCESS` that are read.
pub record Status : Type 0 where
  pub state : State
  pub check_point : ℕ
  pub wait_hint : ℕ

-- The calls that Windows sees.
pub data Call : Type 0 where
  open_manager open_service create_service query start_service control_stop delete_service : Call
  sleep : ℕ → Call
  close_handle : ℕ → Call

-- The answers of Windows, from the calls up to the one that is answered, the newest first. A failed
-- ControlService leaves the status as it was, which is not initialised: `control` gives what is
-- read there.
pub record Scm : Type 0 where
  pub has_manager : List Call → Bool
  pub has_service : List Call → Bool
  pub status : List Call → Option Status
  pub control : List Call → State
  pub starts : List Call → Bool
  pub deletes : List Call → Bool
  pub last_error : List Call → SystemError
  -- Milliseconds since the start of Windows. `GetTickCount` is this number modulo 2 ^ 32.
  pub uptime : List Call → ℕ

-- The fields of a `ServiceController`, the handles that are open and the calls made. The
-- constructor leaves `manager` and `service` as they are.
pub record Controller : Type 0 where
  pub manager : Option ℕ
  pub service : Option ℕ
  pub last_error : String
  pub code : ℤ
  pub opened : List ℕ
  pub next : ℕ
  pub calls : List Call

-- `none` is a loop that has not ended in the rounds given.
abbrev pub M : Type 0 → Type 0
M A = Controller → Option (A × Controller)

infixl 5 ◌>>=◌ ◌>>◌
abbrev pub ◌>>=◌ : {A B : Type 0} → M A → (A → M B) → M B
◌>>=◌ e f s = elim (e s) [ none ↦ none | some (a, t) ↦ f a t ]

abbrev pub ◌>>◌ : {B : Type 0} → M (Unit {0}) → M B → M B
◌>>◌ e k s = elim (e s) [ none ↦ none | some (a, t) ↦ k t ]

abbrev pub pure : {A : Type 0} → A → M A
pure a s = some (a, s)

abbrev pub call : Call → Controller → Controller
call c s = record s { calls = c ∷ s.calls }

-- A handle that is not open is left alone: Windows returns an error, which nobody reads.
abbrev pub erase : ℕ → List ℕ → List ℕ
erase h [] = []
erase h (x ∷ xs) = if x == h then xs else x ∷ erase h xs

abbrev pub close_one : Option ℕ → Controller → Controller
close_one none s = s
close_one (some h) s = record s { calls = close_handle h ∷ s.calls; opened = erase h s.opened }

-- `ServiceController::close`, which leaves the pointers as they are
unfoldable pub close : M (Unit {0})
close s = some (tt, close_one s.manager (close_one s.service s))

-- `ServiceController::trataErro`
unfoldable pub note_error : SystemError → String → M (Unit {0})
note_error e detail s =
    some (tt, record s { last_error = detail <> error_message e; code = error_code e })

module _ (scm : Scm) where
  -- `trataErro(GetLastError(), detail)`
  unfoldable pub note_last : String → M (Unit {0})
  note_last detail s = note_error (scm.last_error s.calls) detail s

  -- `ServiceController::openMananger`
  unfoldable pub open_manager_handle : M Bool
  unfolding note_last
  open_manager_handle s =
      let t = call open_manager s in
      if scm.has_manager t.calls
      then pure true
          (record t { manager = some t.next; opened = t.next ∷ t.opened; next = suc t.next })
      else (note_last "OpenMananger" >> pure false) (record t { manager = none })

  -- `schService = OpenService(...)` or `CreateService(...)`
  unfoldable pub service_handle : Call → M Bool
  service_handle c s =
      let t = call c s in
      if scm.has_service t.calls
      then pure true
          (record t { service = some t.next; opened = t.next ∷ t.opened; next = suc t.next })
      else pure false (record t { service = none })

  -- `CloseServiceHandle(schSCManager)` and `CloseServiceHandle(schService)`
  abbrev pub close_manager : M (Unit {0})
  close_manager s = some (tt, close_one s.manager s)

  abbrev pub close_service : M (Unit {0})
  close_service s = some (tt, close_one s.service s)

  -- `ServiceController::open`
  unfoldable pub open_service_handle : M Bool
  unfolding open_manager_handle service_handle note_last
  open_service_handle = do
    managed ← open_manager_handle
    if managed
        then (do
          there ← service_handle open_service
          if there
              then pure true
              else (do note_last "Open Service Handle"; close_manager; pure false))
        else pure false

  -- `QueryServiceStatusEx`
  unfoldable pub query_status : M (Option Status)
  query_status s = let t = call query s in some (scm.status t.calls, t)
