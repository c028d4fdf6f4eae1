-- ===== src/Timer/Contact/Sent.antt =====
-- What goes out in each step of the exchange with the manager.
use cacic_agente.Base.{
  ◌≡◌, refl, ◌∙◌, ap, ◌⊎◌, inl, Bool, true, false, not, String, List, ◌∷◌, arith, if◌then◌else◌,
}
use cacic_agente.Json.{Object, has, find, insert, to_string, value}
use cacic_agente.Json.Laws.{has-touch}
use cacic_agente.Cacic.{set_json_to_file, get_json_from_file, set_values}
use cacic_agente.Machine.{Machine, Request}
use cacic_agente.World.{World, Holds, Ensures}
use cacic_agente.World.Route
use cacic_agente.World.Laws.{Holds-bind, Holds-mono, Ensures-Holds, Ensures-mono}
use cacic_agente.Cacic.Laws.{get_json-Silent}
use cacic_agente.Comm.{Comm, comm, login_data, request, request_url}
use cacic_agente.Comm.Laws.{send_outcome}
use cacic_agente.Timer.{agent_computer, config_path}
use cacic_agente.Timer.Contact.{
  inventory, test_answered, test_again, get_test, config_answered, save_config, get_config,
  register_url, content_of, unusable,
}

-- The request went out once, or twice, since the first list.
abbrev pub OnceOrTwice : Request → List Request → List Request → Type 0
OnceOrTwice req old new = (new ≡ req ∷ old) ⊎ (new ≡ req ∷ req ∷ old)

abbrev pub Tried : {m : Machine} → Request → World m → Bool × Object → World m → Type 0
Tried req w (done, r) v =
    (has "error" r ≡ not done)
    × (if done then v.sent ≡ req ∷ w.sent else (v.sent ≡ w.sent) ⊎ (v.sent ≡ req ∷ w.sent))

-- The login of a connection.
abbrev pub login_request : Machine → Comm → Request
login_request m c = request c Route.get_login (login_data m c) true

-- The requests of the two are the same.
abbrev pub SameRequests : Machine → Comm → Comm → Type 0
SameRequests m c d =
    ((route : String) (o : Object) → request d route o true ≡ request c route o true)
    × (login_request m d ≡ login_request m c)

pub same_requests :
    (m : Machine) (c : Comm) (done : Bool) (s : String)
    → SameRequests m c (if done then record c { session = s } else c)
unfolding request_url
same_requests m c true s = (λ route o. refl, refl)
same_requests m c false s = (λ route o. refl, refl)

module _ (m : Machine) (folder : String) where
  pub comm-Tried :
      (c : Comm) (route : String) (o : Object) (w : World m)
      → Ensures (comm m c route o true w) (Tried (request c route o true) w)
  unfolding comm insert find
  comm-Tried c route o w = ground (arith, send_outcome m (request c route o true) w)

  -- An answer without an error is the one that was handed over, and only the disk and the log differ.
  abbrev Kept : Object → World m → Object → World m → Type 0
  Kept r w s v = has "error" s ≡ false → (has "error" r ≡ false) × (v.sent ≡ w.sent)

  unusable-Kept :
      (message : String) (r : Object) (w : World m)
      → Holds (unusable m folder message r w) (Kept r w)
  unfolding unusable
  unusable-Kept message r w = ground (arith, has-touch "error" r)

  test_answered-Kept : (r : Object) (w : World m) → Holds (test_answered m folder r w) (Kept r w)
  unfolding test_answered set_json_to_file
  test_answered-Kept r w = ground (arith, unusable-Kept "Falha na execução do getTest(). " r w)

  test_again-Tried :
      (c : Comm) (done : Bool) (r : Object) (w v : World m)
      → let req = request c Route.get_test (inventory m folder) true in
        Tried req w (done, r) v
        → Ensures (test_again m folder c (done, r) v) (λ (again, s) u.
          (has "error" s ≡ not again) × (again ≡ true → OnceOrTwice req w.sent u.sent))
  unfolding test_again
  test_again-Tried c true r w v (e, s) = (e, λ t. inl s)
  test_again-Tried c false r w v (e, s) =
      Ensures-mono (comm m c Route.get_test (inventory m folder) true v) _ _
        (comm-Tried c Route.get_test (inventory m folder) v)
        λ (again, r') u (f, t). (f, λ g. ground arith)

  -- Two tries, of which an answer without an error is left.
  twice-Kept :
      (req : Request) (r s : Object) (again : Bool) (w u v : World m)
      → has "error" r ≡ not again
      → (again ≡ true → OnceOrTwice req w.sent u.sent)
      → Kept r u s v
      → has "error" s ≡ false
      → OnceOrTwice req w.sent v.sent
  twice-Kept req r s again w u v e o k f = ground (arith, k f)

  pub get_test_sent :
      (c : Comm) (w : World m)
      → Holds (get_test m folder c w) (λ r v.
        has "error" r ≡ false
        → OnceOrTwice (request c Route.get_test (inventory m folder) true) w.sent v.sent)
  unfolding get_test
  get_test_sent c w =
      let req = request c Route.get_test (inventory m folder) true in
      let first = comm m c Route.get_test (inventory m folder) true w in
      Holds-bind first _ (Tried req w) _
        (Ensures-Holds first (Tried req w) (comm-Tried c Route.get_test (inventory m folder) w))
        λ (done, r) v h.
          Holds-bind (test_again m folder c (done, r) v) (λ (again, s). test_answered m folder s)
            (λ (again, s) u.
              (has "error" s ≡ not again) × (again ≡ true → OnceOrTwice req w.sent u.sent))
            _
            (Ensures-Holds (test_again m folder c (done, r) v) _ (test_again-Tried c done r w v h))
            λ (again, s) u (e, o).
              Holds-mono (test_answered m folder s u) _ _ (test_answered-Kept s u)
                λ r' x k. twice-Kept req s r' again w u x e o k

  set_json_sent :
      (o : Object) (p : String) (w : World m)
      → Holds (set_json_to_file m o p w) (λ _ v. v.sent ≡ w.sent)
  unfolding set_json_to_file
  set_json_sent o p w = ground arith

  register_url_sent :
      (url : String) (w : World m) → Holds (register_url m folder url w) (λ _ v. v.sent ≡ w.sent)
  unfolding register_url set_values
  register_url_sent url w = ground arith

  save_config-Kept : (r : Object) (w : World m) → Holds (save_config m folder r w) (Kept r w)
  unfolding save_config
  save_config-Kept r w =
      let saving = set_json_to_file m (content_of r) (config_path m folder) w in
      Holds-bind saving _ (λ _ v. v.sent ≡ w.sent) _
        (set_json_sent (content_of r) (config_path m folder) w)
        λ _ u e.
          Holds-bind (get_json_from_file m (config_path m folder) u) _ (λ _ v. v ≡ u) _
            (get_json-Silent m u (config_path m folder))
            λ config v f.
              let url = to_string (value "applicationUrl" (agent_computer config)) in
              Holds-bind (register_url m folder url v) _ (λ _ x. x.sent ≡ v.sent) _
                (register_url_sent url v) λ _ x g h. (h, g ∙ ap (λ y. y.sent) f ∙ e)

  config_answered-Kept :
      (r : Object) (w : World m) → Holds (config_answered m folder r w) (Kept r w)
  unfolding config_answered
  config_answered-Kept r w =
      ground (arith, unusable-Kept "Falha na execução do getConfig()." r w, save_config-Kept r w)

  Tried-Kept :
      (req : Request) (r s : Object) (done : Bool) (w u v : World m)
      → Tried req w (done, r) u
      → Kept r u s v
      → has "error" s ≡ false
      → v.sent ≡ req ∷ w.sent
  Tried-Kept req r s done w u v h k f = ground (arith, k f)

  pub get_config_sent :
      (c : Comm) (w : World m)
      → Holds (get_config m folder c w) (λ r v.
        has "error" r ≡ false
        → v.sent ≡ request c Route.get_config (inventory m folder) true ∷ w.sent)
  unfolding get_config
  get_config_sent c w =
      let req = request c Route.get_config (inventory m folder) true in
      let asking = comm m c Route.get_config (inventory m folder) true w in
      Holds-bind asking _ (Tried req w) _
        (Ensures-Holds asking (Tried req w) (comm-Tried c Route.get_config (inventory m folder) w))
        λ (done, r) v h.
          Holds-mono (config_answered m folder r v) _ _ (config_answered-Kept r v)
            λ s x k f. Tried-Kept req r s done w v x h k f
