-- ===== src/Tests/Cacic.antt =====
-- `CCacic`, `CacicComm` and `LogCacic` at concrete inputs.
use cacic_agente.Base.{
  ◌≡◌, ◌≢◌, refl, true, not, ◌===◌, none, some, [], ◌∷◌, split, trimmed, if◌then◌else◌,
}
use cacic_agente.Json.{Object, end, field, str, has}
use cacic_agente.World.{World, Ensures}
use cacic_agente.Cacic.Dates.{standard_date_linux, standard_date_windows, month_number}
use cacic_agente.Cacic.System.{fill, random_string, random_string_overflows, is_installed_linux}
use cacic_agente.Comm.{new_comm, comm, request}
use cacic_agente.Comm.Laws.{comm_outcome}
use cacic_agente.Tests.Memory.{memory, binary}

abbrev bare : World memory
bare = record {
  disk = λ p. if p === "/c/cacic" then some (binary 9 "old") else none;
  registry = [];
  sent = [];
  log = [];
}

abbrev a_config : Object
a_config = field "applicationUrl" (str "host") end

-- A text of fewer than ten parts has no date.
short_date : standard_date_linux "Qui 06 Mar 2014 15:12:54 BRT" ≡ some "//"
unfolding standard_date_linux split
short_date = refl

a_listing : standard_date_linux "a b c d e f g h i Mar 06 2014" ≡ some "06/03/2014"
unfolding standard_date_linux split month_number
a_listing = refl

a_windows_date : standard_date_windows "20140306" ≡ "06/03/2014"
unfolding standard_date_windows
a_windows_date = refl

random_string_overflows_example :
    (fill 3 0 (λ i. i) (0 ∷ 0 ∷ 0 ∷ []) ≢ none) × (random_string (λ i. i) (0 ∷ 0 ∷ 0 ∷ []) ≡ none)
random_string_overflows_example = random_string_overflows (λ i. i) (0 ∷ 0 ∷ 0 ∷ [])

a_status : is_installed_linux "cacic3 start/running" ≡ some true
unfolding is_installed_linux split trimmed
a_status = refl

comm_outcome_example :
    Ensures (comm memory new_comm "/ws/neo/getTest" a_config true bare) (λ (done, r) v.
      (has "error" r ≡ not done)
      × (has "reply" r ≡ done)
      × (v ≡ record bare { sent = request new_comm "/ws/neo/getTest" a_config true ∷ [] }))
comm_outcome_example = comm_outcome memory new_comm "/ws/neo/getTest" a_config true bare
