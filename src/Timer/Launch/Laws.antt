-- ===== src/Timer/Launch/Laws.antt =====
-- The mutex of the thread, over a round of the timer.
use cacic_agente.Base.{
  ℕ, zero, suc, ◌≡◌, refl, ◌∙◌, ◌⊎◌, Bool, true, false, String, Option, none, some, List, [], ◌∷◌,
  arith, Bool-cases, inl, inr, contains,
}
use cacic_agente.Json.{Json, Object}
use cacic_agente.Machine.{Machine}
use cacic_agente.World.{World, ok, Holds, Registry}
use cacic_agente.World.Laws.{Holds-bind, Holds-mono, Holds_any}
use cacic_agente.Cacic.{get_json_from_file}
use cacic_agente.Timer.{is_usable, config_path}
use cacic_agente.Timer.Collect.{send_if_due}
use cacic_agente.Timer.Logs.{send_logs}
use cacic_agente.CheckModules.{module_entries}
use cacic_agente.Thread.{Mutex, lock, unlock, Outside, start_module}
use cacic_agente.Timer.Launch.{
  program_path, not_found, run_thread, run_found, run_wanted, is_wanted, hash_of, run_module,
  run_modules, with_config, note_failure, survives, send_everything, start_threads, start_round,
  is_special, name_of,
}

module _ (m : Machine) (out : Outside m) (windows : Bool) (folder : String)
    (lines : m.Bytes → List String) where
  -- A module's run unlocks the mutex once.
  start_module-unlock :
      (path : String) (k : Mutex) (w : World m)
      → Holds (start_module m out windows path k w) (λ j v. j ≡ unlock k)
  unfolding start_module
  start_module-unlock path k w = ground arith

  run_thread-unlock :
      (name hash : String) (done : Registry) (k : Mutex) (w : World m)
      → Holds (run_thread m out windows folder lines name hash done k w) (λ r v. r.1 ≡ unlock k)
  unfolding run_thread
  run_thread-unlock name hash done k w =
      Holds-bind (start_module m out windows (program_path folder name) k w) _ (λ j v. j ≡ unlock k)
        (λ r v. r.1 ≡ unlock k) (start_module-unlock (program_path folder name) k w) λ j v e. e

  -- From the second module on, the mutex is as before; the first one may leave it unlocked.
  abbrev Stays : ℕ → Mutex → Mutex → Type 0
  Stays zero k j = (j ≡ unlock k) ⊎ (j ≡ k)
  Stays (suc var) k j = j ≡ k

  Stays-same : (var : ℕ) (k : Mutex) → Stays var k k
  Stays-same zero k = inr refl
  Stays-same (suc var) k = refl

  unlock-lock : (k : Mutex) → unlock (lock k) ≡ k
  unlock-lock k = ground arith

  run_found-Stays :
      (var : ℕ) (name hash : String) (done : Registry) (k : Mutex) (there : Bool) (w : World m)
      → Holds
          (run_found m out windows folder lines var name hash done k there w)
          (λ r v. Stays var k r.1)
  unfolding run_found
  run_found-Stays zero name hash done k true w =
      Holds-mono (run_thread m out windows folder lines name hash done k w) _ _
        (run_thread-unlock name hash done k w) λ r v e. inl e
  run_found-Stays (suc var) name hash done k true w =
      Holds-mono (run_thread m out windows folder lines name hash done (lock k) w) _ _
        (run_thread-unlock name hash done (lock k) w) λ r v e. e ∙ unlock-lock k
  run_found-Stays var name hash done k false w = Stays-same var k

  run_wanted-Stays :
      (var : ℕ) (name hash : String) (done : Registry) (k : Mutex) (wanted : Bool) (w : World m)
      → Holds
          (run_wanted m out windows folder lines var name hash done k wanted w)
          (λ r v. Stays var k r.1)
  unfolding run_wanted
  run_wanted-Stays var name hash done k true w = run_found-Stays var name hash done k _ w
  run_wanted-Stays var name hash done k false w = Stays-same var k

  run_module-Stays :
      (var : ℕ) (v : Json) (done : Registry) (k : Mutex) (w : World m)
      → Holds (run_module m out windows folder lines var v done k w) (λ r v. Stays var k r.1)
  unfolding run_module
  run_module-Stays var v done k w =
      Holds-bind (is_wanted m out windows folder lines (name_of v) w) _ (λ _ _. Unit {0})
        (λ r v. Stays var k r.1) (Holds_any (is_wanted m out windows folder lines (name_of v) w))
        λ wanted u h. run_wanted-Stays var (name_of v) (hash_of v) done k wanted u

  run_modules-Stays :
      (var : ℕ) (vs : List Json) (done : Registry) (k : Mutex) (w : World m)
      → Holds (run_modules m out windows folder lines var vs done k w) (λ j v. Stays var k j)
  unfolding run_modules
  run_modules-Stays var [] done k w = Stays-same var k
  run_modules-Stays zero (v ∷ vs) done k w =
      Holds-bind (run_module m out windows folder lines zero v done k w) _ (λ r v. Stays zero k r.1)
        (λ j v. Stays zero k j) (run_module-Stays zero v done k w)
        λ r u h.
          Holds-mono (run_modules m out windows folder lines 1 vs r.0 r.1 u) _ _
            (run_modules-Stays 1 vs r.0 r.1 u) λ j t e. ground (arith, e, h)
  run_modules-Stays (suc var) (v ∷ vs) done k w =
      Holds-bind (run_module m out windows folder lines (suc var) v done k w) _ (λ r v. r.1 ≡ k)
        (λ j v. j ≡ k) (run_module-Stays (suc var) v done k w)
        λ r u h.
          Holds-mono (run_modules m out windows folder lines (suc (suc var)) vs r.0 r.1 u) _ _
            (run_modules-Stays (suc (suc var)) vs r.0 r.1 u) λ j t e. e ∙ h

  after_round :
      (k : Mutex) (vs : List Json) (w : World m)
      → Holds
          (run_modules m out windows folder lines 0 vs [] (lock k) w)
          (λ j v. (j ≡ k) ⊎ (j ≡ lock k))
  after_round k vs w =
      Holds-mono (run_modules m out windows folder lines 0 vs [] (lock k) w) _ _
        (run_modules-Stays 0 vs [] (lock k) w)
        λ j v e. elim e [ inl a ↦ inl (a ∙ unlock-lock k) | inr b ↦ inr b ]

  -- What a round leaves of the mutex, where it survives the logs
  abbrev pub RoundOf : Mutex → Option Mutex → Type 0
  RoundOf k none = Unit
  RoundOf k (some j) = (j ≡ k) ⊎ (j ≡ lock k)

  survives-RoundOf :
      (k j : Mutex) (b : Option Bool)
      → RoundOf k (some j)
      → RoundOf k (survives m out windows folder lines j b)
  unfolding survives
  survives-RoundOf k j none h = tt
  survives-RoundOf k j (some b) h = h

  send_everything-Holds :
      (P : Option Mutex → Type 0) (j : Mutex) (w : World m)
      → ((b : Option Bool) → P (survives m out windows folder lines j b))
      → Holds (send_everything m out windows folder lines j w) (λ r v. P r)
  unfolding send_everything
  send_everything-Holds P j w h =
      Holds-bind (send_if_due m folder w) _ (λ _ _. Unit {0}) (λ r v. P r)
        (Holds_any (send_if_due m folder w))
        λ sent u _.
          Holds-bind (note_failure m out windows folder lines sent u) _ (λ _ _. Unit {0})
            (λ r v. P r) (Holds_any (note_failure m out windows folder lines sent u))
            λ _ t _.
              Holds-bind (send_logs m folder lines t) _ (λ _ _. Unit {0}) (λ r v. P r)
                (Holds_any (send_logs m folder lines t)) λ logged _ _. h logged

  with_config-RoundOf :
      (k : Mutex) (config : Object) (w : World m)
      → Holds (with_config m out windows folder lines (lock k) config w) (λ r v. RoundOf k r)
  unfolding with_config
  with_config-RoundOf k config w = elim (Bool-cases (is_usable config)) [
    | inl good ↦
        rw (good, with_config)
          (Holds-bind
            (run_modules m out windows folder lines 0 (module_entries config) [] (lock k) w) _
            (λ j v. RoundOf k (some j)) (λ r v. RoundOf k r)
            (after_round k (module_entries config) w)
            λ j u h. send_everything-Holds (RoundOf k) j u (λ b. survives-RoundOf k j b h))
    | inr bad ↦ rw (bad, with_config) (inr refl)
  ]

  threads-RoundOf :
      (k : Mutex) (w : World m)
      → Holds (start_threads m out windows folder lines (lock k) w) (λ r v. RoundOf k r)
  unfolding start_threads
  threads-RoundOf k w =
      Holds-bind (get_json_from_file m (config_path m folder) w) _ (λ _ _. Unit {0})
        (λ r v. RoundOf k r) (Holds_any (get_json_from_file m (config_path m folder) w))
        λ config u h. with_config-RoundOf k config u

  -- In a round that returns, the mutex is unlocked as often as it was locked, or once less; it is
  -- never unlocked while it is not locked.
  pub start_round-RoundOf :
      (busy : Bool) (k : Mutex) (w : World m)
      → Holds (start_round m out windows folder lines busy k w) (λ r v. RoundOf k r)
  unfolding start_round
  start_round-RoundOf true k w = threads-RoundOf k _
  start_round-RoundOf false k w = threads-RoundOf k w

  -- What a run that unlocks nothing leaves of the mutex
  abbrev pub Same : Mutex → Option Mutex → Type 0
  Same k none = Unit
  Same k (some j) = j ≡ k

  survives-Same :
      (k j : Mutex) (b : Option Bool) → j ≡ k → Same k (survives m out windows folder lines j b)
  unfolding survives
  survives-Same k j none e = tt
  survives-Same k j (some b) e = e

  -- The loop runs no program of the module: its name is one of the service, the installer or the user
  -- interface, and not of the map, or it is none of these and its file is not there.
  abbrev pub IsPassed : Json → World m → Type 0
  IsPassed v w =
      ((is_special (name_of v) ≡ true) × (contains (name_of v) "mapacacic" ≡ false))
      ⊎ ((is_special (name_of v) ≡ false)
          × (m.read w.disk (program_path folder (name_of v)) ≡ none))

  modules-Same :
      (v : Json) (vs : List Json) (k : Mutex) (w : World m)
      → IsPassed v w
      → Holds (run_modules m out windows folder lines 0 (v ∷ vs) [] k w) (λ j u. j ≡ k)
  unfolding run_modules run_module is_wanted run_wanted run_found not_found
  modules-Same v vs k w (inl (special, plain)) = rw (special, plain) (run_modules-Stays 1 vs [] k w)
  modules-Same v vs k w (inr (own, gone)) = rw (own, gone) (run_modules-Stays 1 vs [] k _)

  -- If `iniciarThread` returns, with the logs read without a fault, the mutex is locked as often as it
  -- was before where the first module of the configuration is one of the service, the installer or the
  -- user interface by its name, and not the map, and where it is none of these nor the map and its file is
  -- not there.
  pub start_threads-Same :
      (config : Object) (v : Json) (vs : List Json) (k : Mutex) (w u : World m)
      → get_json_from_file m (config_path m folder) w ≡ ok config u
      → is_usable config ≡ true
      → module_entries config ≡ v ∷ vs
      → IsPassed v u
      → Holds (start_threads m out windows folder lines k w) (λ r t. Same k r)
  unfolding start_threads with_config
  start_threads-Same config v vs k w u reads good entries passed =
      rw (reads, good, entries)
        (Holds-bind (run_modules m out windows folder lines 0 (v ∷ vs) [] k u) _ (λ j t. j ≡ k)
          (λ r t. Same k r) (modules-Same v vs k u passed)
          λ j t e. send_everything-Holds (Same k) j t (λ b. survives-Same k j b e))
