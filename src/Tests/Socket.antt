-- ===== src/Tests/Socket.antt =====
-- The sockets, with numbers of one digit.
use cacic_agente.Base.{
  ℕ, ℤ, pos, ◌≡◌, refl, true, false, String, ◌===◌, ◌==◌, Option, none, some, [], ◌∷◌,
  if◌then◌else◌,
}
use cacic_agente.Socket.Frame.{read_line, format_data, message_of}
use cacic_agente.Socket.Frame.Laws.{read_line-format_data}
use cacic_agente.Socket.Client.{
  Client, start, setup_socket_connection, on_connected, on_forcar_clicked, parse_data,
}
use cacic_agente.Socket.Client.Steps.{Reach, started, later, connect_fires}
use cacic_agente.Socket.Client.Laws.{Ending, IsLive, Reach-IsLive, Reach-ends}
use cacic_agente.Socket.Server.{Server, Command, forcar_coleta}
use cacic_agente.Socket.Server as Server
use cacic_agente.Socket.Server.Laws.{newest, exchange_forcar}

-- The lengths of the messages are below ten.
abbrev digit : ℕ → String
digit n = if n == 3 then "3" else if n == 6 then "6" else "9"

abbrev parse_digit : String → Option ℤ
parse_digit s =
    if s === "3"
    then some (pos 3)
    else if s === "6"
    then some (pos 6)
    else if s === "9"
    then some (pos 9)
    else none

read_line-format_data_example :
    (message_of digit parse_digit "6 STOPUI\r\n" ≡ some "STOPUI")
    × (◌≡◌ {A = String} "3 ACK\r\n" "3 ACK\r\n")
unfolding format_data read_line
read_line-format_data_example =
    read_line-format_data digit parse_digit "STOPUI" "3 ACK\r\n" refl refl refl refl

abbrev tried_twice : Client
tried_twice = setup_socket_connection false (start false)

tried_twice-Reach : Reach digit parse_digit tried_twice
unfolding start
tried_twice-Reach = later (started false) (connect_fires false refl)

Reach-IsLive_example : IsLive tried_twice
Reach-IsLive_example = Reach-IsLive digit parse_digit tried_twice-Reach

Reach-ends_example : Ending 4 tried_twice
unfolding start setup_socket_connection
Reach-ends_example = Reach-ends digit parse_digit tried_twice tried_twice-Reach refl

abbrev connected_client : Client
connected_client = start true

abbrev idle_server : Server
idle_server = record { written = []; commands = [] }

exchange_forcar_example :
    let sent = on_forcar_clicked digit parse_digit connected_client in
    let answered = Server.parse_data digit parse_digit (newest sent.written) idle_server in
    let told = parse_data digit parse_digit (newest answered.written) sent in
    (sent.can_send ≡ false)
    × (on_forcar_clicked digit parse_digit sent ≡ sent)
    × (answered.commands ≡ forcar_coleta ∷ [])
    × (told.can_send ≡ true)
    × (told.signals ≡ connected_client.signals)
unfolding start on_connected
exchange_forcar_example =
    exchange_forcar digit parse_digit connected_client idle_server (refl, refl) (refl, refl)
      (refl, refl) refl refl
