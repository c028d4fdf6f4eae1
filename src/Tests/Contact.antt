-- ===== src/Tests/Contact.antt =====
-- The exchange with the manager and the logs at concrete worlds.
use cacic_agente.Base.{◌<◌, ◌≡◌, ◌↔◌, refl, Bool, true, String, none, some, List, [], ◌∷◌, clean}
use cacic_agente.Base.{◌===◌, false}
use cacic_agente.Json.{Json, Object, end, field, obj, str, find, insert, text}
use cacic_agente.World.{World, Result, ok, Holds, Ensures, world, store}
use cacic_agente.World.Route
use cacic_agente.Comm.{new_comm, comm, send, reply_object, request_url}
use cacic_agente.Timer.Contact.{communicate, get_config, inventory}
use cacic_agente.Timer.Contact.Laws.{communicate-Contacted, Contacted}
use cacic_agente.Timer.Contact.Saved.{get_config_saves}
use cacic_agente.Timer.Map.{get_map}
use cacic_agente.Timer.Map.Laws.{KeepsConfig, get_map-KeepsConfig}
use cacic_agente.Timer.Logs.{log_entries, entries_from, line_json}
use cacic_agente.Timer.Logs.Laws.{log_entries_faults}
use cacic_agente.Tests.Memory.{memory, memory-IsLawful, object, an_answer}

abbrev bare : World memory
bare = record {
  disk = λ p. none;
  registry = ("applicationUrl", text "host") ∷ [];
  sent = [];
  log = [];
}

communicate-Contacted_example :
    Holds (communicate memory "/c" bare) (λ b v. b ≡ true → Contacted memory "/c" bare v)
communicate-Contacted_example = communicate-Contacted memory "/c" bare

abbrev asked : Result memory (Bool × Object)
asked = comm memory new_comm Route.get_config (inventory memory "/c") true bare

abbrev the_reply : Object
the_reply = field "codestatus" (str "200") (field "reply" (obj an_answer) end)

asked_ok : asked ≡ ok (true, the_reply) (world asked)
unfolding comm send reply_object insert request_url
asked_ok = refl

get_config_saves_example : Ensures (get_config memory "/c" new_comm bare) (λ s v.
    (s ≡ the_reply)
    × (memory.read v.disk "/c/getConfig.json" ≡ some (object an_answer))
    × (v.registry ≡ store "applicationUrl" (text "host") bare.registry))
unfolding find clean
get_config_saves_example =
    get_config_saves memory "/c" new_comm the_reply an_answer bare (world asked) memory-IsLawful
      asked_ok refl refl refl refl

abbrev ten_lines : List String
ten_lines =
    "[1] a" ∷ "[2] b" ∷ "[3] c" ∷ "[4] d" ∷ "[5] e" ∷ "[6] f" ∷ "[7] g" ∷ "[8] h" ∷ "[9] i"
    ∷ "[10] j" ∷ []

abbrev ten_entries : List Json
ten_entries =
    line_json "[10] j"
    ∷ line_json "[9] i"
    ∷ line_json "[8] h"
    ∷ line_json "[7] g"
    ∷ line_json "[6] f"
    ∷ line_json "[5] e"
    ∷ line_json "[4] d"
    ∷ line_json "[3] c"
    ∷ line_json "[2] b"
    ∷ line_json "[1] a"
    ∷ []

ten_gathered : log_entries ten_lines ≡ some ten_entries
unfolding log_entries entries_from
ten_gathered = refl

log_entries_faults_example : (log_entries ("[1] a" ∷ []) ≡ none) ↔ (1 < 10)
log_entries_faults_example = log_entries_faults ("[1] a" ∷ [])

paths_apart : (clean "/c/getConfig.json" === clean "/cgetConfig.json") ≡ false
unfolding clean
paths_apart = refl

get_map-KeepsConfig_example :
    Holds (get_map memory "/c" bare) (λ _ v. KeepsConfig memory "/c" bare v)
get_map-KeepsConfig_example = get_map-KeepsConfig memory "/c" memory-IsLawful paths_apart bare
