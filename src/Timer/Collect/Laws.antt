-- ===== src/Timer/Collect/Laws.antt =====
-- What a call of `enviarColeta` sends and notes.
use cacic_agente.Base.{◌≡◌, true, false, ◌∷◌}
use cacic_agente.Json.{Object, variant_bool}
use cacic_agente.Machine.{Machine}
use cacic_agente.World.{World, lookup}
use cacic_agente.World.Route
use cacic_agente.Comm.{Comm, request}

-- The collection went out once, and the flag that asks for it is off.
abbrev pub Sent : {m : Machine} → World m → World m → Type 0
Sent w v =
    (variant_bool (lookup "enviaColeta" v.registry) ≡ false)
    × ((c : Comm) × (o : Object) × (v.sent ≡ request c Route.collection o true ∷ w.sent))
