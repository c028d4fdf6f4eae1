-- ===== src/Socket/Client/Laws.antt =====
-- What holds of a `UiClient` whatever happens.
use cacic_agente.Base.{
  ℕ, zero, suc, ◌+◌, ◌≤◌, ◌≡◌, refl, inl, inr, Bool, true, false, ◌||◌, String, Option, List, [],
  ◌∷◌, ℤ, arith, leb, Bool-cases,
}
use cacic_agente.Socket.Client.{
  Signal, finalizar, Client, start, setup_socket_connection, on_connected, on_disconnected,
  on_forcar_clicked, on_finalizar_clicked, parse_data,
}
use cacic_agente.Socket.Client.Steps.{
  Step, connect_fires, reconnect_fires, late, lost, forced, finished, received, Reach, started,
  later,
}

-- Whether `finalizar` was emitted.
abbrev pub is_finished : List Signal → Bool
is_finished [] = false
is_finished (finalizar ∷ gs) = true
is_finished (_ ∷ gs) = is_finished gs

-- The client is connected, or a trial to connect is due, or the program was told to end; and it was
-- told to by the fourth trial that fails.
unfoldable pub IsLive : Client → Type 0
IsLive s =
    ((s.connected || s.connect_timer || s.reconnect_timer || is_finished s.signals) ≡ true)
    × ((leb s.connection_trials 3 || is_finished s.signals) ≡ true)

setup-IsLive : (reached : Bool) (s : Client) → IsLive s → IsLive (setup_socket_connection reached s)
unfolding IsLive setup_socket_connection
setup-IsLive true s h = ground (arith, h)
setup-IsLive false s h = ground (arith, h)

connected-IsLive : (s : Client) → IsLive s → IsLive (on_connected s)
unfolding IsLive on_connected
connected-IsLive s h = ground (arith, h)

disconnected-IsLive : (s : Client) → IsLive s → IsLive (on_disconnected s)
unfolding IsLive on_disconnected
disconnected-IsLive s h = ground (arith, h)

-- A number of trials that fail, each when a timer fires.
pub data Failing : ℕ → Client → Client → Type 0 where
  over : {s : Client} → Failing 0 s s
  next :
      {n : ℕ} {s t : Client}
      → (s.connect_timer || s.reconnect_timer) ≡ true
      → Failing n (setup_socket_connection false s) t
      → Failing (suc n) s t

-- A run of failing trials that ends with `finalizar`.
abbrev pub Ending : ℕ → Client → Type 0
Ending k s = (n : ℕ) × (t : Client) × (n ≤ k) × Failing n s t × (is_finished t.signals ≡ true)

one_more :
    (k : ℕ) (s : Client)
    → (s.connect_timer || s.reconnect_timer) ≡ true
    → Ending k (setup_socket_connection false s)
    → Ending (suc k) s
one_more k s due (n, t, few, run, told) = (suc n, t, omega (arith, few), next due run, told)

at_rest : (k : ℕ) (s : Client) → is_finished s.signals ≡ true → Ending k s
at_rest k s told = (0, s, omega arith, over, told)

module _ (number : ℕ → String) (parse : String → Option ℤ) where
  step-IsLive : {s t : Client} → IsLive s → Step number parse s t → IsLive t
  unfolding IsLive on_forcar_clicked on_finalizar_clicked parse_data
  step-IsLive {s} h (connect_fires reached due) = setup-IsLive reached s h
  step-IsLive {s} h (reconnect_fires reached due) = setup-IsLive reached s h
  step-IsLive {s} h late = connected-IsLive s h
  step-IsLive {s} h lost = disconnected-IsLive s h
  step-IsLive {s} h forced = ground (arith, h)
  step-IsLive {s} h finished = ground (arith, h)
  step-IsLive {s} h (received line) = ground (arith, h)

  -- Whatever happens to a `UiClient`, it is connected, or a timer is active that starts another trial,
  -- or `finalizar` was emitted; and it was emitted if more than three trials have failed.
  pub Reach-IsLive : {s : Client} → Reach number parse s → IsLive s
  unfolding IsLive start
  Reach-IsLive (started true) = (refl, refl)
  Reach-IsLive (started false) = (refl, refl)
  Reach-IsLive (later {s} {t} r e) = step-IsLive (Reach-IsLive r) e

ends_within :
    (k : ℕ) (s : Client) → 4 ≤ s.connection_trials + k → IsLive s → s.connected ≡ false → Ending k s
unfolding IsLive setup_socket_connection
ends_within zero s many h apart = at_rest zero s (ground (arith, h, many))
ends_within (suc k) s many h apart = elim (Bool-cases (is_finished s.signals)) [
  | inl told ↦ at_rest (suc k) s told
  | inr untold ↦ one_more k s (ground (arith, h, apart, untold)) (
      ends_within k (setup_socket_connection false s) (ground (arith, many))
        (setup-IsLive false s h) (ground (arith, apart)))
]

-- From any state that a `UiClient` can be in without a connection, at most four more trials, each
-- started by a timer, end in `finalizar` if all of them fail.
pub Reach-ends :
    (number : ℕ → String) (parse : String → Option ℤ) (s : Client)
    → Reach number parse s
    → s.connected ≡ false
    → Ending 4 s
Reach-ends number parse s r apart =
    ends_within 4 s (omega arith) (Reach-IsLive number parse r) apart
