-- ===== src/InstallCacic/Install/Laws.antt =====
-- What an installation leaves in the registry.
use mathlib.Core.List.{foldl}
use cacic_agente.Base.{◌≡◌, ◌⊎◌, Bool, true, String, [], ◌∷◌}
use cacic_agente.Json.{Object, end, obj, insert, value, to_object, to_string}
use cacic_agente.Log.{Level}
use cacic_agente.Machine.{Machine}
use cacic_agente.World.{World, ok, Registry, store}
use cacic_agente.Comm.{Comm, set_manager_url, comm, login}
use cacic_agente.World.Route
use cacic_agente.InstallCacic.Arguments.{Params}
use cacic_agente.InstallCacic.Install.{connection, registered}

-- The address in a reply with the configuration
abbrev pub address_in : Object → String
address_in r =
    to_string
      (value "applicationUrl" (to_object (value "agentcomputer" (to_object (value "reply" r)))))

-- The request for the configuration, after the login
abbrev asked : {m : Machine} → World m → World m
asked v = record v {
  log =
      (Level.info, "Pegando informações do gerente...")
      ∷ (Level.info, "Login realizado com sucesso!")
      ∷ v.log;
}

-- The manager accepts the login and answers the request for the configuration that follows it by `r`.
abbrev pub Configured : (m : Machine) → Params → World m → Object → Type 0
Configured m args w r =
    (o : Object) × (c : Comm) × (u : World m) × (v : World m) × (login m (connection args) w
      ≡ ok (true, o, c) u)
    × (comm m c Route.get_config (insert "computador" (obj m.computer) end) true (asked u)
        ≡ ok (true, r) v)

-- The registry is as before, or the manager has answered, and it is empty, or what it was with the
-- address of the answer and the other three values stored.
abbrev pub Settled : (m : Machine) → String → Params → World m → Registry → Type 0
Settled m folder args w r =
    (r ≡ w.registry)
    ⊎ ((reply : Object) × Configured m args w reply
        × ((r ≡ [])
            ⊎ (r
                ≡ foldl (λ t (k, v). store k v t) w.registry
                    (registered folder (set_manager_url (address_in reply) (connection args))))))

-- The login keeps the credentials and the registry.
abbrev SameLogin : {m : Machine} → Comm → World m → Bool × Object × Comm → World m → Type 0
SameLogin c w (done, o, d) v =
    (d.user ≡ c.user) × (d.password ≡ c.password) × (v.registry ≡ w.registry)
