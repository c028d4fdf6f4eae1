-- ===== src/Timer/Contact/Laws.antt =====
-- What went out when the exchange with the manager succeeds.
use cacic_agente.Base.{
  ◌≡◌, refl, ◌∙◌, inl, inr, Bool, true, false, String, List, ◌∷◌, arith, Bool-cases, is_empty,
}
use cacic_agente.Json.{Object, has}
use cacic_agente.Machine.{Machine, Request}
use cacic_agente.World.{World, ◌>>=◌, Holds, Ensures, Silent}
use cacic_agente.World.Route
use cacic_agente.World.Laws.{Holds-bind, Holds-mono, Ensures-Holds, Ensures-mono, Ensures-bind}
use cacic_agente.Comm.{Comm, comm, login, login_data, request}
use cacic_agente.Timer.{application_url, connection}
use cacic_agente.Timer.Laws.{application_url-Silent}
use cacic_agente.Timer.Contact.{
  inventory, is_failure, get_test, get_config, login_again, after_test, after_login, config_outcome,
  login_refused, talk, communicate,
}
use cacic_agente.Timer.Contact.Sent.{
  OnceOrTwice, Tried, login_request, SameRequests, same_requests, comm-Tried, get_test_sent,
  get_config_sent,
}

module _ (m : Machine) (folder : String) where
  -- The requests of an exchange that went well, the logins first.
  abbrev pub Contacted : World m → World m → Type 0
  Contacted w v =
      (c : Comm) × (logins : List Request) × (tests : List Request) × OnceOrTwice
        (login_request m c) w.sent logins
      × OnceOrTwice (request c Route.get_test (inventory m folder) true) logins tests
      × (v.sent ≡ request c Route.get_config (inventory m folder) true ∷ tests)

  login-Tried :
      (c : Comm) (w : World m)
      → Ensures
          (login m c w)
          (λ (done, r, d) v. Tried (login_request m c) w (done, r) v × SameRequests m c d)
  unfolding login
  login-Tried c w =
      Ensures-bind (comm m c Route.get_login (login_data m c) true w) _
        (Tried (login_request m c) w) _ (comm-Tried m folder c Route.get_login (login_data m c) w)
        λ (done, r) v h. (h, same_requests m c done _)

  logged_twice :
      (req own : Request) (done again : Bool) (r s : Object) (w v u : World m)
      → Tried req w (done, r) v
      → own ≡ req
      → Tried own v (again, s) u
      → is_failure s ≡ false
      → OnceOrTwice req w.sent u.sent
  logged_twice req own done again r s w v u h e k f = ground (arith, e)

  login_again-Tried :
      (c d : Comm) (done : Bool) (r : Object) (w v : World m)
      → Tried (login_request m c) w (done, r) v
      → SameRequests m c d
      → Ensures (login_again m folder (done, r, d) v) (λ (again, s, e) u.
        (is_failure s ≡ false → OnceOrTwice (login_request m c) w.sent u.sent) × SameRequests m c e)
  unfolding login_again
  login_again-Tried c d done r w v h i = elim (Bool-cases (is_failure r)) [
    | inl bad ↦
        rw (bad, login_again)
          (Ensures-mono (login m d v) _ _ (login-Tried d v) λ (again, s, e) u (h', i'). (
            logged_twice (login_request m c) (login_request m d) done again r s w v u h (i.1) h',
            ((λ route o. i'.0 route o ∙ i.0 route o), i'.1 ∙ i.1),
          ))
    | inr good ↦ rw (good, login_again) (λ _. inl (ground arith), i)
  ]

  after_test_sent :
      (c : Comm) (r : Object) (w : World m)
      → Holds (after_test m folder c r w) (λ b v.
        b ≡ true
        → (has "error" r ≡ false)
          × (v.sent ≡ request c Route.get_config (inventory m folder) true ∷ w.sent))
  unfolding after_test config_outcome
  after_test_sent c r w = elim (Bool-cases (has "error" r)) [
    | inl bad ↦ rw (bad, after_test) (λ t. cc)
    | inr good ↦
        rw (good, after_test)
          (Holds-bind (get_config m folder c w) (config_outcome m folder) _ _
            (get_config_sent m folder c w)
            λ s v h. elim (Bool-cases (has "error" s)) [
              | inl worse ↦ rw worse (λ t. cc)
              | inr fine ↦ rw fine (λ t. (refl, h fine))
            ])
  ]

  after_login_sent :
      (c d : Comm) (done : Bool) (r : Object) (w v : World m)
      → (is_failure r ≡ false → OnceOrTwice (login_request m c) w.sent v.sent)
      → SameRequests m c d
      → Holds (after_login m folder (done, r, d) v) (λ b u. b ≡ true → Contacted w u)
  unfolding after_login login_refused
  after_login_sent c d done r w v o i = elim (Bool-cases (is_failure r)) [
    | inl bad ↦ rw (bad, after_login) (λ t. cc)
    | inr good ↦
        rw (good, after_login)
          (Holds-bind (get_test m folder d v) (after_test m folder d) _ _
            (get_test_sent m folder d v)
            λ s x h. Holds-mono (after_test m folder d s x) _ _ (after_test_sent d s x) λ b u k t. (
              c,
              v.sent,
              x.sent,
              o good,
              rw (← i.0 Route.get_test (inventory m folder)) (h (k t).0),
              rw (← i.0 Route.get_config (inventory m folder)) (k t).1,
            ))
  ]

  talk_sent : (c : Comm) (w : World m) → Holds (talk m folder c w) (λ b v. b ≡ true → Contacted w v)
  unfolding talk
  talk_sent c w =
      let req = login_request m c in
      Holds-bind (login m c _) (λ first. login_again m folder first >>= after_login m folder)
        (λ (done, r, d) v. Tried req w (done, r) v × SameRequests m c d) _
        (Ensures-Holds (login m c _) _ (login-Tried c _))
        λ (done, r, d) v (h, i).
          Holds-bind (login_again m folder (done, r, d) v) (after_login m folder)
            (λ (again, s, e) u.
              (is_failure s ≡ false → OnceOrTwice req w.sent u.sent) × SameRequests m c e)
            _
            (Ensures-Holds (login_again m folder (done, r, d) v) _
              (login_again-Tried c d done r w v h i))
            λ (again, s, e) u (o, j). after_login_sent c e again s w u o j

  -- If `comunicarGerente` returns that it went well, exactly this went out: the login once or twice,
  -- then the test once or twice, then the request for the configuration once, all of one connection.
  pub communicate-Contacted :
      (w : World m) → Holds (communicate m folder w) (λ b v. b ≡ true → Contacted w v)
  unfolding communicate connection
  communicate-Contacted w =
      Holds-bind (application_url m folder w) _ (λ _ v. Silent w v) _
        (application_url-Silent m w folder)
        λ server u (_, _, s). elim (Bool-cases (is_empty server)) [
          | inl e ↦ rw e (λ t. cc)
          | inr e ↦ rw e (Holds-mono (talk m folder _ u) _ _ (talk_sent _ u) λ b v f t. rw s at f t)
        ]
