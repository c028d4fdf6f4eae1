-- ===== src/Tests/Gercols.antt =====
-- The comparison of collections, at concrete ones.
use package.text.Mathlib.TextEquality.{eq_iff}
use cacic_agente.Base.{
  ◌≡◌, ◌↔◌, refl, Bool, true, false, ◌||◌, String, ◌===◌, Option, none, some, [], ◌∷◌,
  if◌then◌else◌, clean,
}
use cacic_agente.Json.{
  Json, null, bool, num, frac, str, arr, obj, Object, end, field, find, is_empty_object, flag,
}
use cacic_agente.World.{World, Ensures, store}
use cacic_agente.Cacic.{get_json_from_file}
use cacic_agente.Gercols.{compare_collections, run}
use cacic_agente.Gercols.Diff.{differs}
use cacic_agente.Gercols.Diff.Laws.{Agrees, differs_iff}
use cacic_agente.Gercols.Laws.{run_notes}
use cacic_agente.Gercols.Laws.Same.{IsProperObject}
use cacic_agente.Tests.Memory.{memory, object, Files}

-- Texts are compared; any other value equals any that is there.
abbrev alike : Json → Option Json → Bool
alike (str s) (some (str t)) = s === t
alike (str s) _ = false
alike v none = false
alike v (some w) = true

alike_self : (v : Json) → alike v (some v) ≡ true
alike_self null = refl
alike_self (bool x) = refl
alike_self (num x) = refl
alike_self frac = refl
alike_self (str s) = (eq_iff s s).1 refl
alike_self (arr vs) = refl
alike_self (obj o) = refl

abbrev a_disk : String → Object
a_disk free = field "name" (str "sda") (field "FreeSpace" (str free) end)

differs_iff_example :
    (differs alike (obj (a_disk "10")) (some (obj (a_disk "20"))) ≡ none)
    ↔ Agrees alike (obj (a_disk "10")) (some (obj (a_disk "20")))
differs_iff_example = differs_iff alike (obj (a_disk "10")) (some (obj (a_disk "20")))

abbrev collected : String → Object
collected name = field "hardware" (obj (field "disk" (str name) end)) end

collected-IsProper : IsProperObject (collected "sda")
unfolding IsProperObject find
collected-IsProper = (refl, (refl, tt, tt), tt)

abbrev saved : Files
saved p = if p === "/c/coleta.json" then some (object (collected "sda")) else none

abbrev before_run : World memory
before_run = record {
  disk = saved;
  registry = ("enviaColeta", flag false) ∷ [];
  sent = [];
  log = [];
}

run_notes_example : Ensures (run memory "/c" alike (collected "sdb") before_run) (λ _ v.
    (v.registry
      ≡ store "enviaColeta"
          (flag (
            is_empty_object (collected "sda")
            || (compare_collections alike (collected "sda") (collected "sdb")).changed))
          before_run.registry)
    × (v.sent ≡ []))
unfolding get_json_from_file clean
run_notes_example =
    run_notes memory "/c" alike (collected "sda") (collected "sdb") before_run refl refl
