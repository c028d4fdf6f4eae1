-- ===== src/Timer/Contact/Saved.antt =====
-- What the configuration leaves on the disk and in the registry.
use package.text.Mathlib.TextEquality.{eq_iff}
use cacic_agente.Base.{◌≡◌, refl, true, false, String, some, arith, if◌then◌else◌, is_empty, clean}
use cacic_agente.Json.{Object, obj, has, value, to_string, is_empty_object, text}
use cacic_agente.Json.Laws.{has-nonempty}
use cacic_agente.Machine.{Machine}
use cacic_agente.Machine.Laws.{IsLawful}
use cacic_agente.World.{World, Result, ok, Ensures, store}
use cacic_agente.World.Route
use cacic_agente.Cacic.{set_json_to_file, get_json_from_file, set_values}
use cacic_agente.Comm.{Comm, comm}
use cacic_agente.Comm.Laws.{comm-Answered, Answered}
use cacic_agente.Timer.{agent_computer, config_path}
use cacic_agente.Timer.Contact.{
  inventory, is_failure, get_config, config_answered, save_config, register_url,
}

Ensures_at :
    {m : Machine} {A : Type 0} (r : Result m A) (a : A) (v : World m) (P : A → World m → Type 0)
    → r ≡ ok a v
    → Ensures r P
    → P a v
Ensures_at r a v P e h = rw e at h

module _ (m : Machine) (folder : String) where
  answer_usable :
      (c : Comm) (route : String) (o r : Object) (w u : World m)
      → comm m c route o true w ≡ ok (true, r) u
      → (has "reply" r ≡ true)
        × (is_failure r ≡ false)
        × (u.registry ≡ w.registry)
        × (u.disk ≡ w.disk)
  answer_usable c route o r w u e =
      let (f, h, g, d, _) =
        Ensures_at (comm m c route o true w) (true, r) u (Answered c route o w) e
          (comm-Answered m c route o w) in
      (h, ground (arith, has-nonempty "reply" r), g, d)

  save_config_saves :
      (r o : Object) (u : World m)
      → IsLawful m
      → has "reply" r ≡ true
      → value "reply" r ≡ obj o
      → is_empty_object o ≡ false
      → m.writable u.disk (config_path m folder) ≡ true
      → m.readable (m.write u.disk (config_path m folder) (m.encode o)) (config_path m folder)
        ≡ true
      → Ensures (save_config m folder r u) (λ s v.
        let url = to_string (value "applicationUrl" (agent_computer o)) in
        (s ≡ r)
        × (m.read v.disk (config_path m folder) ≡ some (m.encode o))
        × (v.registry
            ≡ (if is_empty url then u.registry else store "applicationUrl" (text url) u.registry)))
  unfolding save_config register_url set_json_to_file get_json_from_file set_values
  save_config_saves r o u L there found filled writes reads = ground (
    arith,
    L.read-write u.disk (config_path m folder) (m.encode o) (config_path m folder),
    L.decode-encode o,
    (eq_iff (clean (config_path m folder)) (clean (config_path m folder))).1 refl,
  )

  -- On a lawful machine, where the request for the configuration is answered by an object that is
  -- not empty, and getConfig.json can be written and then read, `getConfig` returns that answer,
  -- leaves the object in the file, and stores its "applicationUrl" in the registry unless empty.
  pub get_config_saves :
      (c : Comm) (r o : Object) (w u : World m)
      → IsLawful m
      → comm m c Route.get_config (inventory m folder) true w ≡ ok (true, r) u
      → value "reply" r ≡ obj o
      → is_empty_object o ≡ false
      → m.writable w.disk (config_path m folder) ≡ true
      → m.readable (m.write w.disk (config_path m folder) (m.encode o)) (config_path m folder)
        ≡ true
      → Ensures (get_config m folder c w) (λ s v.
        let url = to_string (value "applicationUrl" (agent_computer o)) in
        (s ≡ r)
        × (m.read v.disk (config_path m folder) ≡ some (m.encode o))
        × (v.registry
            ≡ (if is_empty url then w.registry else store "applicationUrl" (text url) w.registry)))
  unfolding get_config config_answered
  get_config_saves c r o w u L answered found filled writes reads =
      let (there, fine, g, d) =
        answer_usable c Route.get_config (inventory m folder) r w u answered in
      rw (answered, get_config)
        (rw (fine, config_answered)
          (rw (← g) (save_config_saves r o u L there found filled (rw d writes) (rw d reads))))
