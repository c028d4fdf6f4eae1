-- ===== src/Tests/Deploy.antt =====
-- The modules to be run, at a concrete list.
use cacic_agente.Base.{
  ℤ, pos, negsuc, ◌≡◌, ◌↔◌, refl, Bool, true, String, ◌===◌, none, some, [], ◌∷◌, if◌then◌else◌,
  keep, map, clean, ends_with,
}
use cacic_agente.Json.{Json, Object, obj, arr, str, end, field, cons, nil, find}
use cacic_agente.World.{World, Holds, lookup}
use cacic_agente.Comm.{set_manager_url}
use cacic_agente.Cacic.{get_json_from_file}
use cacic_agente.Deploy.{Deploy, Started, selected, on_timer, run_module}
use cacic_agente.Deploy.Laws.{Ran, on_timer-Ran}
use cacic_agente.Deploy.Order.{DueFirst, chosen, is_past}
use cacic_agente.Tests.Memory.{memory, object, binary}

-- One date is an hour ahead, and any other an hour ago.
abbrev seconds : String → ℤ
seconds s = if s === "01/01/2030 00:00:00" then pos 3600 else negsuc 3599

abbrev module_at : String → Json
module_at date = obj (field "nome" (str "m") (field "dataExecucao" (str date) end))

abbrev ahead : Json
ahead = module_at "01/01/2030 00:00:00"

abbrev past : Json
past = module_at "01/01/2015 00:00:00"

-- The module whose time has not come is run in the place of the one that is due.
wrong_module : selected seconds (ahead ∷ past ∷ []) ≡ ahead ∷ []
unfolding selected find
wrong_module = refl

-- A configuration with a module whose time has come, and one whose time has not
abbrev config : Object
config =
    field "agentcomputer"
      (obj (field "modulos" (obj (field "outros" (arr (cons past (cons ahead nil))) end)) end)) end

abbrev configured : World memory
configured = record {
  disk = λ p.
      if p === "/c/getConfig.json"
      then some (object config)
      else if p === "/c/deploy/m"
      then some (binary 5 "")
      else none;
  registry = [];
  sent = [];
  log = [];
}

abbrev idle : Deploy
idle = record { timeout = pos 0; module_exec = end; timer_active = true; started = [] }

abbrev get_mutex : Object → Bool
get_mutex o = true

abbrev elapsed : String → String
elapsed s = "0"

on_timer-Ran_example :
    Holds (on_timer memory "/c/" seconds elapsed "now" get_mutex idle configured) (λ t _.
      Ran memory "/c/" seconds elapsed "now" get_mutex (chosen seconds (past ∷ ahead ∷ [])) idle t)
    × ((chosen seconds (past ∷ ahead ∷ []) ≡ keep (is_past seconds) (past ∷ ahead ∷ []))
        ↔ DueFirst seconds (past ∷ ahead ∷ []))
unfolding find get_json_from_file clean
on_timer-Ran_example =
    on_timer-Ran memory "/c/" seconds elapsed "now" get_mutex config idle configured _ refl refl
      refl

-- Its thread is started.
started_one :
    Holds
      (on_timer memory "/c/" seconds elapsed "now" get_mutex idle configured)
      (λ t _. map (λ (r : Started). r.name) t.started ≡ "m" ∷ [])
unfolding on_timer find get_json_from_file clean run_module set_manager_url ends_with lookup
started_one = refl
