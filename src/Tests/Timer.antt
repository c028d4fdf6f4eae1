-- ===== src/Tests/Timer.antt =====
-- `CacicTimer` at concrete worlds.
use cacic_agente.Base.{
  ℤ, pos, ◌≡◌, refl, true, false, String, ◌===◌, none, some, [], ◌∷◌, if◌then◌else◌, clean,
}
use cacic_agente.Json.{insert, Object, end, field, obj, str, find, flag, text}
use cacic_agente.World.{World, Result, ok, Ensures, world, Registry, lookup, store}
use cacic_agente.Cacic.{get_json_from_file, set_values}
use cacic_agente.Comm.{comm, send, reply_object, set_manager_url, request_url}
use cacic_agente.Timer.{application_url, connection}
use cacic_agente.Timer.Collect.{is_collection_forced, send_collection, send_if_due}
use cacic_agente.Timer.Collect.Policy.{send_if_due_plain}
use cacic_agente.Timer.Period.{Periods}
use cacic_agente.Tests.Memory.{memory, object, Files}

abbrev config_of : String → Object
config_of s =
    field "agentcomputer"
      (obj (field "configuracoes" (obj (field "nu_intervalo_exec" (str s) end)) end)) end

abbrev files_of : Object → Files
files_of config p =
    if p === "/c/getConfig.json"
    then some (object config)
    else if p === "/c/coleta.json"
    then some (object (field "hardware" (str "cpu") end))
    else none

abbrev world_of : String → Registry → World memory
world_of s r = record { disk = files_of (config_of s); registry = r; sent = []; log = [] }

abbrev reached : {A : Type 0} → Result memory A → World memory
reached r = world r

-- The day of the last collection is today, or is ten days ago, or the collection is flagged.
abbrev recent : World memory
recent =
    world_of "30" (("applicationUrl", text "host") ∷ ("dataColetaEnviada", text "19/03/2015") ∷ [])

abbrev stale : World memory
stale =
    world_of "30" (("applicationUrl", text "host") ∷ ("dataColetaEnviada", text "10/03/2015") ∷ [])

abbrev flagged : World memory
flagged = world_of "30" (("applicationUrl", text "host") ∷ ("enviaColeta", flag true) ∷ [])

abbrev after_collection : World memory → World memory
after_collection w = reached (send_collection memory "/c" w)

unforced_stale : is_collection_forced memory "/c" stale ≡ ok false stale
unfolding is_collection_forced get_json_from_file find clean
unforced_stale = refl

unforced_recent : is_collection_forced memory "/c" recent ≡ ok false recent
unfolding is_collection_forced get_json_from_file find clean
unforced_recent = refl

unforced_flagged : is_collection_forced memory "/c" flagged ≡ ok false flagged
unfolding is_collection_forced get_json_from_file find clean
unforced_flagged = refl

stale_sent : send_collection memory "/c" stale ≡ ok true (after_collection stale)
unfolding send_collection get_json_from_file find application_url connection comm send lookup
    set_values store set_manager_url request_url reply_object clean insert
stale_sent = refl

flagged_sent : send_collection memory "/c" flagged ≡ ok true (after_collection flagged)
unfolding send_collection get_json_from_file find application_url connection comm send lookup
    set_values store set_manager_url request_url reply_object clean insert
flagged_sent = refl

-- A collection ten days old goes out, once, and the day is noted.
stale_run : send_if_due memory "/c" stale ≡ ok true (reached (send_if_due memory "/c" stale))
unfolding send_if_due is_collection_forced send_collection get_json_from_file find application_url
    connection comm send lookup set_values store set_manager_url request_url reply_object clean
    insert
stale_run = refl

send_if_due_plain_example : Ensures (send_if_due memory "/c" stale) (λ b v.
    (b ≡ true)
    × (v.disk ≡ (after_collection stale).disk)
    × (v.sent ≡ (after_collection stale).sent)
    × (v.registry
        ≡ store "dataColetaEnviada" (text "20/03/2015") (after_collection stale).registry))
unfolding lookup clean
send_if_due_plain_example =
    send_if_due_plain memory "/c" stale (after_collection stale) false true refl unforced_stale refl
      refl stale_sent

-- `toInt` on the texts of the examples
abbrev parse_minutes : String → ℤ
parse_minutes s = if s === "30" then pos 30 else pos 0

abbrev print_minutes : ℤ → String
print_minutes n = "n"

abbrev four_hours : Periods
four_hours = record { current = pos 14400000; previous = pos 14400000; interval = pos 14400000 }

abbrev wordy : World memory
wordy = world_of "thirty" []
