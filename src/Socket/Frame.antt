-- ===== src/Socket/Frame.antt =====
-- A message on a socket: its length, a space, the text and the end of the line. Lengths are counted
-- in code points; `QString` counts units of UTF-16, which are as many below U+10000.
pub mod Laws
use Prim.Native.Char.{code}
use cacic_agente.Base.{
  ℕ, zero, suc, ◌+◌, Bool, true, false, String, ◌<>◌, ◌==◌, Option, none, some, List, [], ◌∷◌,
  if◌then◌else◌, ℤ, pos, negsuc, length, split, codes,
}

-- `MSG_ACK`, `MSG_END`, `MSG_UIFORCAR`, `MSG_UIFINALIZAR` and `MSG_DAEMONSTOPUI`, with their lengths
abbrev pub msg_ack : String
msg_ack = "ACK"

abbrev pub msg_length_ack : ℕ
msg_length_ack = 3

abbrev pub msg_end : String
msg_end = "\r\n"

abbrev pub msg_ui_forcar : String
msg_ui_forcar = "FORCAR"

abbrev pub msg_length_ui_forcar : ℕ
msg_length_ui_forcar = 6

abbrev pub msg_ui_finalizar : String
msg_ui_finalizar = "FINALIZAR"

abbrev pub msg_length_ui_finalizar : ℕ
msg_length_ui_finalizar = 9

abbrev pub msg_daemon_stop_ui : String
msg_daemon_stop_ui = "STOPUI"

abbrev pub msg_length_daemon_stop_ui : ℕ
msg_length_daemon_stop_ui = 6

-- `s.left(n)`, and `s` without its first `n` characters
unfoldable pub left : ℕ → String → String
left zero s = ""
left (suc n) String.[] = ""
left (suc n) (String.◌∷◌ c s) = String.◌∷◌ c (left n s)

unfoldable pub skip : ℕ → String → String
skip zero s = s
skip (suc n) String.[] = ""
skip (suc n) (String.◌∷◌ c s) = skip n s

-- `s.mid(i, n)`: all that follows for a negative `n`
unfoldable pub mid : String → ℕ → ℤ → String
unfolding left skip
mid s i (pos n) = left n (skip i s)
mid s i (negsuc n) = skip i s

abbrev add_char : String × String → String → String × String
add_char (line, more) c = (c <> line, more)

-- `socket->readLine()`: the text up to the end of the line, and what is still to be read
unfoldable pub read_line : String → String × String
read_line String.[] = ("", "")
read_line (String.◌∷◌ c s) =
    let (line, more) = read_line s in
    if code c == 10 then (String.◌∷◌ c "", s) else (String.◌∷◌ c line, more)

-- `number` is `QString::number`, and `parse` is `QString::toInt`, `none` where it sets `ok` to false.
module _ (number : ℕ → String) (parse : String → Option ℤ) where
  -- `formatData`
  unfoldable pub format_data : String → ℕ → String
  format_data message n = number n <> (" " <> (message <> msg_end))

  abbrev take_message : String → String → Option ℤ → Option String
  take_message received first none = none
  take_message received first (some n) = some (mid received (length (codes first) + 1) n)

  abbrev read_parts : String → List String → Option String
  read_parts received (first ∷ second ∷ parts) = take_message received first (parse first)
  read_parts received _ = none

  -- What `parseData` makes of a line before it looks at the message
  unfoldable pub message_of : String → Option String
  unfolding split mid
  message_of received = read_parts received (split 32 received)
