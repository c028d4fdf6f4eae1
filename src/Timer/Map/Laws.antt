-- ===== src/Timer/Map/Laws.antt =====
-- What an answer to the request for the map leaves of the configuration.
use cacic_agente.Base.{
  ◌≡◌, refl, ◌∙◌, ap, Bool, true, false, String, ◌<>◌, ◌===◌, arith, Bool-cases, inl, inr, is_empty,
  clean,
}
use cacic_agente.Json.{Object, to_object, value}
use cacic_agente.Machine.{Machine}
use cacic_agente.Machine.Laws.{IsLawful}
use cacic_agente.World.{World, Holds, Silent, bind_result}
use cacic_agente.World.Route
use cacic_agente.World.Laws.{Holds-bind, Holds-mono, Ensures-Holds}
use cacic_agente.Cacic.{set_json_to_file, get_json_from_file}
use cacic_agente.Cacic.Laws.{get_json-Silent}
use cacic_agente.Comm.{Comm, comm}
use cacic_agente.Comm.Laws.{Answered, comm-Answered}
use cacic_agente.Timer.{config_path, application_url, connection}
use cacic_agente.Timer.Laws.{application_url-Silent}
use cacic_agente.Timer.Map.{
  map_request, keep_map, map_replied, map_answered, ask_map, get_map, with_map,
}

module _ (m : Machine) (folder : String) where
  -- The configuration on the disk is the same.
  abbrev pub KeepsConfig : World m → World m → Type 0
  KeepsConfig w v = m.read v.disk (config_path m folder) ≡ m.read w.disk (config_path m folder)

module _ (m : Machine) (folder : String) (L : IsLawful m)
    (apart : (clean (config_path m folder) === clean (folder <> "getConfig.json")) ≡ false) where
  keep_map-KeepsConfig :
      (configs reply : Object) (w : World m)
      → Holds (keep_map m folder configs reply w) (λ _ v. KeepsConfig m folder w v)
  unfolding keep_map set_json_to_file
  keep_map-KeepsConfig configs reply w = ground (
    arith,
    L.read-write w.disk (folder <> "getConfig.json") (m.encode (with_map configs reply))
        (config_path m folder),
  )

  map_replied-KeepsConfig :
      (configs reply : Object) (w : World m)
      → Holds (map_replied m folder configs reply w) (λ _ v. KeepsConfig m folder w v)
  unfolding map_replied
  map_replied-KeepsConfig configs reply w = ground (arith, keep_map-KeepsConfig configs reply w)

  map_answered-KeepsConfig :
      (configs r : Object) (done : Bool) (w : World m)
      → Holds (map_answered m folder configs (done, r) w) (λ _ v. KeepsConfig m folder w v)
  unfolding map_answered
  map_answered-KeepsConfig configs r false w = refl
  map_answered-KeepsConfig configs r true w =
      ground (arith, map_replied-KeepsConfig configs (to_object (value "reply" r)) w)

  asked-KeepsConfig :
      (configs : Object) (c : Comm) (w : World m)
      → Holds
          (bind_result
            (comm m c Route.get_map (map_request m folder) true w)
            (map_answered m folder configs))
          (λ _ v. KeepsConfig m folder w v)
  asked-KeepsConfig configs c w =
      let asking = comm m c Route.get_map (map_request m folder) true w in
      let answer = Answered c Route.get_map (map_request m folder) w in
      Holds-bind asking (map_answered m folder configs) answer _
        (Ensures-Holds asking answer (comm-Answered m c Route.get_map (map_request m folder) w))
        λ (done, r) v (_, _, _, d, _).
          Holds-mono (map_answered m folder configs (done, r) v) _ _
            (map_answered-KeepsConfig configs r done v)
            λ _ u k. k ∙ ap (λ x. m.read x (config_path m folder)) d

  ask_map-KeepsConfig :
      (configs : Object) (server : String) (w : World m)
      → Holds (ask_map m folder configs server w) (λ _ v. KeepsConfig m folder w v)
  unfolding ask_map connection
  ask_map-KeepsConfig configs server w = asked-KeepsConfig configs _ w

  -- On a lawful machine, where the folder's name followed by "getConfig.json" is not the path of
  -- the configuration, `getMapa` never changes the configuration, whatever the manager answers.
  pub get_map-KeepsConfig :
      (w : World m) → Holds (get_map m folder w) (λ _ v. KeepsConfig m folder w v)
  unfolding get_map
  get_map-KeepsConfig w =
      Holds-bind (get_json_from_file m (config_path m folder) w) _ (λ _ v. v ≡ w) _
        (get_json-Silent m w (config_path m folder))
        λ configs v e. rw e (
          Holds-bind (application_url m folder w) _ (λ _ u. Silent w u) _
            (application_url-Silent m w folder)
            λ server u (d, _, _). elim (Bool-cases (is_empty server)) [
              | inl none_there ↦ rw none_there (ap (λ x. m.read x (config_path m folder)) d)
              | inr found ↦ rw found (
                  Holds-mono (ask_map m folder configs server u) _ _
                    (ask_map-KeepsConfig configs server u)
                    λ _ x k. k ∙ ap (λ y. m.read y (config_path m folder)) d)
            ])
