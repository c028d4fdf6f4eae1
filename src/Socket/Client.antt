-- ===== src/Socket/Client.antt =====
-- `UiClient` (cacic-ui/uiclient.cpp), which the user interface speaks to the daemon with, and its
-- twin `ServiceClient` (cacicD/serviceclient.cpp), the other way round.
pub mod Steps
pub mod Laws
use cacic_agente.Base.{
  ℕ, zero, suc, ◌+◌, ◌≡◌, Bool, true, false, ◌&&◌, String, ◌===◌, ◌==◌, leb, Option, none, some,
  List, [], ◌∷◌, if◌then◌else◌, ℤ,
}
use cacic_agente.Socket.Frame.{
  format_data, message_of, msg_ack, msg_ui_forcar, msg_length_ui_forcar, msg_ui_finalizar,
  msg_length_ui_finalizar, msg_daemon_stop_ui, msg_length_daemon_stop_ui,
}

-- The signals that a client emits.
pub data Signal : Type 0 where
  finalizar ui_stopped : Signal

-- `connect_timer` and `reconnect_timer` say whether the timers are active; what was written to the
-- socket and the signals stand with the newest first.
pub record Client : Type 0 where
  pub connected : Bool
  pub can_send : Bool
  pub connection_trials : ℕ
  pub last_written : String
  pub connect_timer : Bool
  pub reconnect_timer : Bool
  pub written : List String
  pub signals : List Signal

abbrev pub max_connection_trials : ℕ
max_connection_trials = 3

abbrev pub emit : Signal → Client → Client
emit g s = record s { signals = g ∷ s.signals }

abbrev pub write : String → Client → Client
write text s = record s { last_written = text; written = text ∷ s.written }

-- `on_connected`: `connectTimer` goes on.
unfoldable pub on_connected : Client → Client
on_connected s = record s { connected = true; can_send = true; reconnect_timer = false }

-- `on_disconnected`
unfoldable pub on_disconnected : Client → Client
on_disconnected s = record s { connected = false; reconnect_timer = true }

abbrev count_trial : Client → Client
count_trial s = record s { connection_trials = s.connection_trials + 1 }

abbrev give_up : Client → Client
give_up s = emit finalizar (record s { connect_timer = false; reconnect_timer = false })

-- `setupSocketConnection`, from whether the other side is reached in time
unfoldable pub setup_socket_connection : Bool → Client → Client
unfolding on_connected
setup_socket_connection true s = on_connected s
setup_socket_connection false s = count_trial (
    if s.connection_trials == 0
    then record s { connect_timer = true }
    else if leb max_connection_trials s.connection_trials
    then give_up s
    else s)

-- The constructor
unfoldable pub start : Bool → Client
unfolding setup_socket_connection
start reached = setup_socket_connection reached (record {
  connected = false;
  can_send = false;
  connection_trials = 0;
  last_written = "";
  connect_timer = false;
  reconnect_timer = false;
  written = [];
  signals = [];
})

module _ (number : ℕ → String) (parse : String → Option ℤ) where
  -- `UiClient::on_forcarClicked`
  unfoldable pub on_forcar_clicked : Client → Client
  on_forcar_clicked s =
      if s.can_send
      then record (if s.connected
          then write (format_data number parse msg_ui_forcar msg_length_ui_forcar) s
          else s) { can_send = false }
      else s

  -- `UiClient::on_finalizarClicked`
  unfoldable pub on_finalizar_clicked : Client → Client
  on_finalizar_clicked s =
      if s.can_send
      then if s.connected
        then write (format_data number parse msg_ui_finalizar msg_length_ui_finalizar) s
        else emit finalizar (record s { can_send = false })
      else emit finalizar s

  -- `ServiceClient::on_sendStopUiMsg`
  unfoldable pub on_send_stop_ui_msg : Client → Client
  on_send_stop_ui_msg s =
      if s.can_send && s.connected
      then write (format_data number parse msg_daemon_stop_ui msg_length_daemon_stop_ui) s
      else s

  -- An acknowledged message ends the program, or the daemon's wait for it, if it is the one that
  -- was written last.
  acknowledge : String → Signal → Client → Client
  acknowledge ending g s =
      let t = record s { can_send = true } in if s.last_written === ending then emit g t else t

  read_message : String → Signal → Option String → Client → Client
  unfolding acknowledge
  read_message ending g none s = s
  read_message ending g (some text) s = if text === msg_ack then acknowledge ending g s else s

  -- `UiClient::parseData`
  unfoldable pub parse_data : String → Client → Client
  unfolding read_message
  parse_data received =
      read_message (format_data number parse msg_ui_finalizar msg_length_ui_finalizar) finalizar
        (message_of number parse received)

  -- `ServiceClient::parseData`
  unfoldable pub parse_service_data : String → Client → Client
  unfolding read_message
  parse_service_data received =
      read_message (format_data number parse msg_daemon_stop_ui msg_length_daemon_stop_ui)
        ui_stopped (message_of number parse received)
