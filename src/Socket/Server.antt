-- ===== src/Socket/Server.antt =====
-- The other ends: `ServiceServerThread` (cacicD/serviceserverthread.cpp) in the daemon and
-- `UiServerThread` (cacic-ui/uiserverthread.cpp) in the user interface.
pub mod Laws
use cacic_agente.Base.{
  ℕ, Bool, String, ◌<>◌, ◌===◌, Option, none, some, List, [], ◌∷◌, if◌then◌else◌, ℤ,
}
use cacic_agente.Socket.Frame.{
  message_of, msg_ack, msg_length_ack, msg_end, msg_ui_forcar, msg_ui_finalizar, msg_daemon_stop_ui,
}

-- The signals that a server thread emits.
pub data Command : Type 0 where
  forcar_coleta finalizar_cacic finalizar_ui : Command

-- What was written to the socket and the signals, the newest first.
pub record Server : Type 0 where
  pub written : List String
  pub commands : List Command

module _ (number : ℕ → String) (parse : String → Option ℤ) where
  -- `sendAck`
  unfoldable pub send_ack : Server → Server
  send_ack s = record s {
    written = (number msg_length_ack <> (" " <> (msg_ack <> msg_end))) ∷ s.written;
  }

  answer : Command → Server → Server
  unfolding send_ack
  answer c s = record (send_ack s) { commands = c ∷ s.commands }

  read_command : Option String → Server → Server
  unfolding answer
  read_command none s = s
  read_command (some text) s =
      if text === msg_ui_forcar
      then answer forcar_coleta s
      else if text === msg_ui_finalizar
      then answer finalizar_cacic s
      else s

  -- `ServiceServerThread::parseData`
  unfoldable pub parse_data : String → Server → Server
  unfolding read_command
  parse_data received = read_command (message_of number parse received)

  read_stop : Option String → Server → Server
  unfolding answer
  read_stop none s = s
  read_stop (some text) s = if text === msg_daemon_stop_ui then answer finalizar_ui s else s

  -- `UiServerThread::parseData`
  unfoldable pub parse_ui_data : String → Server → Server
  unfolding read_stop
  parse_ui_data received = read_stop (message_of number parse received)
