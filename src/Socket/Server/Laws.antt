-- ===== src/Socket/Server/Laws.antt =====
-- A message of the user interface, what the daemon makes of it, and what comes back.
use text.Mathlib.TextEquality.{eq_iff}
use cacic_agente.Base.{
  has_char, ℕ, ◌≡◌, refl, sym, ap, ◌∙◌, Bool, true, false, String, ◌===◌, Option, none, some, List,
  [], ◌∷◌, ℤ, pos, if◌then◌else◌, Bool-cases, inl, inr,
}
use cacic_agente.Socket.Frame.{
  left, format_data, message_of, msg_ack, msg_ui_forcar, msg_ui_finalizar,
}
use cacic_agente.Socket.Frame.Laws.{message_of-format_data}
use cacic_agente.Socket.Client.{
  Client, finalizar, on_forcar_clicked, on_finalizar_clicked, parse_data,
}
use cacic_agente.Socket.Server.{Server, Command, forcar_coleta, finalizar_cacic, send_ack}
use cacic_agente.Socket.Server as Server

eq_self : (s : String) → (s === s) ≡ true
eq_self s = (eq_iff s s).1 refl

abbrev is_forcar : Option String → Bool
is_forcar none = false
is_forcar (some t) = t === "FORCAR"

abbrev pub newest : List String → String
newest [] = ""
newest (s ∷ ss) = s

module _ (number : ℕ → String) (parse : String → Option ℤ) where
  -- The number is written without a space and read back.
  abbrev pub Reads : ℕ → Type 0
  Reads n = (has_char 32 (number n) ≡ false) × (parse (number n) ≡ some (pos n))

  ack_read : Reads 3 → message_of number parse (format_data number parse msg_ack 3) ≡ some "ACK"
  unfolding left
  ack_read r = rw (message_of-format_data number parse msg_ack 3 r.0 r.1) refl

  forcar_read :
      Reads 6 → message_of number parse (format_data number parse msg_ui_forcar 6) ≡ some "FORCAR"
  unfolding left
  forcar_read r = rw (message_of-format_data number parse msg_ui_forcar 6 r.0 r.1) refl

  finalizar_read :
      Reads 9
      → message_of number parse (format_data number parse msg_ui_finalizar 9) ≡ some "FINALIZAR"
  unfolding left
  finalizar_read r = rw (message_of-format_data number parse msg_ui_finalizar 9 r.0 r.1) refl

  ack : String
  ack = format_data number parse msg_ack 3

  takes_forcar :
      (line : String) (d : Server)
      → message_of number parse line ≡ some "FORCAR"
      → Server.parse_data number parse line d
        ≡ record { written = ack ∷ d.written; commands = forcar_coleta ∷ d.commands }
  unfolding Server.parse_data send_ack ack format_data
  takes_forcar line d e = rw e refl

  takes_finalizar :
      (line : String) (d : Server)
      → message_of number parse line ≡ some "FINALIZAR"
      → Server.parse_data number parse line d
        ≡ record { written = ack ∷ d.written; commands = finalizar_cacic ∷ d.commands }
  unfolding Server.parse_data send_ack ack format_data
  takes_finalizar line d e = rw e refl

  takes_ack :
      (line : String) (s : Client)
      → message_of number parse line ≡ some "ACK"
      → parse_data number parse line s ≡ (
          if s.last_written === format_data number parse msg_ui_finalizar 9
          then record s { can_send = true; signals = finalizar ∷ s.signals }
          else record s { can_send = true })
  unfolding parse_data
  takes_ack line s e = rw e refl

  -- What is written to ask for a collection is not what is written to ask for the end.
  forcar-ne-finalizar :
      Reads 6
      → Reads 9
      → (format_data number parse msg_ui_forcar 6 === format_data number parse msg_ui_finalizar 9)
        ≡ false
  forcar-ne-finalizar six nine =
      elim (Bool-cases (
        format_data number parse msg_ui_forcar 6 === format_data number parse msg_ui_finalizar 9)) [
          | inl e ↦
              let equal =
                (eq_iff (format_data number parse msg_ui_forcar 6)
                    (format_data number parse msg_ui_finalizar 9)).0
                  e in
              let texts =
                sym (forcar_read six) ∙ ap (message_of number parse) equal ∙ finalizar_read nine in
              e ∙ ap is_forcar texts
          | inr e ↦ e
        ]

  -- A click on "Forçar" while the client is connected and may send, and the daemon's answer to it,
  -- with nothing in between: after the click the client may not send, and a second click changes
  -- nothing; the daemon is told once to collect; and when the client reads the answer it may send
  -- again and goes on. This is where `toInt` reads the lengths of the messages back.
  pub exchange_forcar :
      (s : Client) (d : Server)
      → Reads 3
      → Reads 6
      → Reads 9
      → s.can_send ≡ true
      → s.connected ≡ true
      → let sent = on_forcar_clicked number parse s in
        let answered = Server.parse_data number parse (newest sent.written) d in
        let told = parse_data number parse (newest answered.written) sent in
        (sent.can_send ≡ false)
        × (on_forcar_clicked number parse sent ≡ sent)
        × (answered.commands ≡ forcar_coleta ∷ d.commands)
        × (told.can_send ≡ true)
        × (told.signals ≡ s.signals)
  unfolding on_forcar_clicked ack
  exchange_forcar s d three six nine free up =
      rw
        (
          free,
          up,
          takes_forcar (format_data number parse msg_ui_forcar 6) d (forcar_read six),
          takes_ack ack _ (ack_read three),
          forcar-ne-finalizar six nine,
        )
        (refl, refl, refl, refl, refl)

  -- A click on "Finalizar" while the client is connected and may send: the daemon is told to end and
  -- acknowledges, and the user interface ends when it reads that, once; where `toInt` reads the lengths of
  -- the messages back.
  pub exchange_finalizar :
      (s : Client) (d : Server)
      → Reads 3
      → Reads 9
      → s.can_send ≡ true
      → s.connected ≡ true
      → let sent = on_finalizar_clicked number parse s in
        let answered = Server.parse_data number parse (newest sent.written) d in
        let told = parse_data number parse (newest answered.written) sent in
        (sent.signals ≡ s.signals)
        × (answered.commands ≡ finalizar_cacic ∷ d.commands)
        × (told.signals ≡ finalizar ∷ s.signals)
  unfolding on_finalizar_clicked ack
  exchange_finalizar s d three nine free up =
      rw
        (
          free,
          up,
          takes_finalizar (format_data number parse msg_ui_finalizar 9) d (finalizar_read nine),
          takes_ack ack _ (ack_read three),
          eq_self (format_data number parse msg_ui_finalizar 9),
        )
        (refl, refl, refl)
