-- ===== src/Tests/Rounds.antt =====
-- Rounds of the daemon, at a concrete world.
use cacic_agente.Base.{
  inl, ℤ, pos, ◌≡◌, ◌≤◌, refl, true, false, String, ◌===◌, Option, none, some, List, [], ◌∷◌, clean,
  contains, if◌then◌else◌,
}
use cacic_agente.Json.{Json, Object, end, field, obj, str, arr, cons, nil, find, insert, text}
use cacic_agente.World.{World, Result, ok, Holds, Ensures, world, lookup, store}
use cacic_agente.Cacic.{get_json_from_file, set_values}
use cacic_agente.Comm.{login, comm, send, reply_object}
use cacic_agente.Modules.{load_modules}
use cacic_agente.Log.{level_of_name, log_path}
use cacic_agente.Timer.{application_url, connection}
use cacic_agente.Thread.{Mutex, Outside}
use cacic_agente.Timer.Launch.{start_threads}
use cacic_agente.Timer.Launch.Laws.{start_threads-Same, Same}
use cacic_agente.Timer.Slot.{Daemon, mslot}
use cacic_agente.Timer.Slot.Laws.{none_yet, one_more, Rounds-level}
use cacic_agente.Timer.Update.{replace_module}
use cacic_agente.Timer.Update.Laws.{Replaced, replace_module-Replaced}
use cacic_agente.Tests.Memory.{memory, memory-IsLawful, object, binary, Content, Files}

-- Programs that change nothing
abbrev quiet : Outside memory
quiet = record {
  launch = λ p w. w;
  starts = λ p w. true;
  at_end = λ p w. true;
  exits_normally = λ p w. true;
  error_string = λ p w. "";
  now = "20/03/2015";
  checker_runs = λ w. true;
  stop_checker = λ w. w;
  start_checker = λ w. w;
}

abbrev updated : Files
updated p =
    if p === "/c/gercols"
    then some (binary 5 "old")
    else if p === "/c/temp/gercols"
    then some (binary 5 "new")
    else none

abbrev with_update : World memory
with_update = record { disk = updated; registry = []; sent = []; log = [] }

replace_module-Replaced_example :
    Ensures
      (replace_module memory quiet false "/c" false "gercols" with_update)
      (λ _ v. Replaced memory memory-IsLawful quiet false "/c" false "gercols" with_update v)
unfolding clean
replace_module-Replaced_example =
    replace_module-Replaced memory memory-IsLawful quiet false "/c" false (λ w. refl) (λ w. refl)
      "gercols" refl refl with_update

abbrev module_named : String → Json
module_named name = obj (field "nome" (str name) (field "hash" (str "h") end))

abbrev two_modules : Object
two_modules =
    field "agentcomputer"
      (obj (
        field "modulos"
          (obj (
            field "cacic"
              (arr (cons (module_named "cacic-service") (cons (module_named "gercols") nil))) end))
          end))
      end

abbrev configured : World memory
configured = record {
  disk = λ p. if p === "/c/getConfig.json" then some (object two_modules) else updated p;
  registry = ("applicationUrl", text "host") ∷ [];
  sent = [];
  log = [];
}

abbrev no_lines : Content → List String
no_lines b = []

abbrev once : Mutex
once = record { level = 1; misused = false }

start_threads-Same_example :
    Holds
      (start_threads memory quiet false "/c" no_lines once configured)
      (λ r t. Same memory quiet false "/c" no_lines once r)
unfolding get_json_from_file find clean contains
start_threads-Same_example =
    start_threads-Same memory quiet false "/c" no_lines two_modules (module_named "cacic-service")
      (module_named "gercols" ∷ []) once configured configured refl refl refl (inl (refl, refl))

abbrev parse_none : String → ℤ
parse_none s = pos 0

abbrev print_none : ℤ → String
print_none n = ""

abbrev fresh : Daemon
fresh = record {
  mutex = record { level = 0; misused = false };
  periods = record { current = pos 60000; previous = pos 60000; interval = pos 60000 };
  ending = false;
}

abbrev first_round : Result memory (Option Daemon)
first_round =
    mslot memory quiet false "/c" no_lines parse_none print_none false (λ w. ok true w) fresh
      configured

abbrev daemon_of : Result memory (Option Daemon) → Daemon
daemon_of (ok (some s) w) = s
daemon_of _ = fresh

first_round_returns : first_round ≡ ok (some (daemon_of first_round)) (world first_round)
unfolding mslot application_url lookup connection login comm send reply_object insert find clean
    set_values load_modules level_of_name log_path store
first_round_returns = refl

Rounds-level_example :
    (0 ≤ (daemon_of first_round).mutex.level)
    × ((daemon_of first_round).mutex.level ≤ 1)
    × ((daemon_of first_round).mutex.misused ≡ false)
Rounds-level_example =
    Rounds-level memory quiet false "/c" no_lines parse_none print_none (λ w. ok true w)
      (one_more false configured none_yet first_round_returns)
