-- ===== src/Socket/Client/Steps.antt =====
-- What happens to a `UiClient`, in any order.
use cacic_agente.Base.{ℕ, ◌≡◌, Bool, true, String, Option, ℤ}
use cacic_agente.Socket.Client.{
  Client, start, setup_socket_connection, on_connected, on_disconnected, on_forcar_clicked,
  on_finalizar_clicked, parse_data,
}

module _ (number : ℕ → String) (parse : String → Option ℤ) where
  -- A socket may connect after the wait for it, and one that a later trial has replaced may be lost
  -- at any time too.
  pub data Step (s : Client) : Client → Type 0 where
    connect_fires :
        (reached : Bool) → s.connect_timer ≡ true → Step s (setup_socket_connection reached s)
    reconnect_fires :
        (reached : Bool) → s.reconnect_timer ≡ true → Step s (setup_socket_connection reached s)
    late : Step s (on_connected s)
    lost : Step s (on_disconnected s)
    forced : Step s (on_forcar_clicked number parse s)
    finished : Step s (on_finalizar_clicked number parse s)
    received : (line : String) → Step s (parse_data number parse line s)

  pub data Reach : Client → Type 0 where
    started : (reached : Bool) → Reach (start reached)
    later : {s t : Client} → Reach s → Step s t → Reach t
