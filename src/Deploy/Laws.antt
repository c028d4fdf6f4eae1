-- ===== src/Deploy/Laws.antt =====
-- Which modules are run.
use mathlib.Core.Path.{subst}
use cacic_agente.Base.{
  ◌≡◌, refl, sym, ◌↔◌, ◌⊎◌, inl, inr, Bool, true, false, ℤ, String, ◌<>◌, List, [], ◌∷◌, arith,
  keep, if◌then◌else◌,
}
use cacic_agente.Json.{Json, Object, value, has, is_array, to_array, to_int, to_object, to_string}
use cacic_agente.Log.{Level}
use cacic_agente.Machine.{Machine}
use cacic_agente.World.{World, ok, Holds, pure}
use cacic_agente.World.Laws.{Holds-bind, Holds_any, Holds-mono, Holds-self}
use cacic_agente.Cacic.{get_json_from_file}
use cacic_agente.Deploy.Exchange.{ask_authorization}
use cacic_agente.Deploy.{
  Deploy, Started, name_of, modules_of, program_path, run_module, run_modules, run_prepared,
  start_thread, prepare, run_others, log_dates, on_timer,
}
use cacic_agente.Deploy.Order.{
  is_past, chosen, DueFirst, selected-chosen, selected-due, due-selected,
}

module _ (m : Machine) (folder : String) (seconds_until : String → ℤ) (elapsed : String → String)
    (now : String) (free : Object → Bool) where
  -- The thread for a module
  abbrev pub thread_of : Json → Started
  thread_of v = record {
    name = name_of (to_object v);
    program = program_path m folder seconds_until elapsed now (name_of (to_object v));
    timeout = to_int (value "timeout" (to_object v));
  }

  -- A round of the loop for the module, in some world, that returns from `onTimer`
  abbrev Ends : Json → Deploy → Type 0
  Ends v s =
      (t : Deploy) × (u : World m) × (x : World m) × (run_module m folder seconds_until elapsed now
          free (to_object v) s u
        ≡ ok (false, t) x)

  -- The modules are started one after the other, each once, up to one whose round ends the loop.
  abbrev pub Ran : List Json → Deploy → Deploy → Type 0
  Ran [] s t = t.started ≡ s.started
  Ran (v ∷ vs) s t =
      ((t.started ≡ s.started) × Ends v s)
      ⊎ ((r : Deploy) × (r.started ≡ thread_of v ∷ s.started) × Ran vs r t)

  -- A round that goes on has started the thread, and one that does not has not.
  abbrev Round : Json → Deploy → Bool × Deploy → Type 0
  Round v s (true, t) = t.started ≡ thread_of v ∷ s.started
  Round v s (false, t) = t.started ≡ s.started

  start_thread-Round :
      (v : Json) (s : Deploy) (w : World m)
      → Holds
          (start_thread m folder seconds_until elapsed now free (to_object v) s w)
          (λ r _. Round v s r)
  unfolding start_thread
  start_thread-Round v s w = ground arith

  run_prepared-Round :
      (v : Json) (s : Deploy) (ready : Bool) (w : World m)
      → Holds
          (run_prepared m folder seconds_until elapsed now free (to_object v) s ready w)
          (λ r _. Round v s r)
  unfolding run_prepared
  run_prepared-Round v s false w = refl
  run_prepared-Round v s true w = start_thread-Round v s w

  run_module-Round :
      (v : Json) (s : Deploy) (w : World m)
      → Holds
          (run_module m folder seconds_until elapsed now free (to_object v) s w)
          (λ r _. Round v s r)
  unfolding run_module
  run_module-Round v s w =
      let o = to_object v in
      Holds-bind (ask_authorization m folder now o w) _ (λ _ _. Unit {0}) (λ r _. Round v s r)
        (Holds_any (ask_authorization m folder now o w))
        λ _ u _.
          let logged = record u { log = (Level.info, "Iniciando módulo") ∷ u.log } in
          let ready =
            prepare m folder seconds_until elapsed now (name_of o) (to_string (value "hash" o))
              logged in
          Holds-bind ready _ (λ _ _. Unit {0}) (λ r _. Round v s r) (Holds_any ready)
            λ good x _. run_prepared-Round v s good x

  next-Ran :
      (v : Json) (vs : List Json) (s : Deploy) (w : World m) (on : Bool) (r : Deploy) (x : World m)
      → Round v s (on, r)
      → run_module m folder seconds_until elapsed now free (to_object v) s w ≡ ok (on, r) x
      → Holds (run_modules m folder seconds_until elapsed now free vs r x) (λ t _. Ran vs r t)
      → Holds
          ((if on then run_modules m folder seconds_until elapsed now free vs r else pure r) x)
          (λ t _. Ran (v ∷ vs) s t)
  next-Ran v vs s w true r x h e k =
      Holds-mono (run_modules m folder seconds_until elapsed now free vs r x) _ _ k
        λ t _ ran. inr (r, h, ran)
  next-Ran v vs s w false r x h e k = inl (h, (r, w, x, e))

  run_modules-Ran :
      (vs : List Json) (s : Deploy) (w : World m)
      → Holds (run_modules m folder seconds_until elapsed now free vs s w) (λ t _. Ran vs s t)
  unfolding run_modules
  run_modules-Ran [] s w = refl
  run_modules-Ran (v ∷ vs) s w =
      let round = run_module m folder seconds_until elapsed now free (to_object v) s w in
      Holds-bind round _ (λ r x. Round v s r × (round ≡ ok r x)) (λ t _. Ran (v ∷ vs) s t)
        (Holds-self round (λ r _. Round v s r) (run_module-Round v s w))
        λ (on, r) x (h, e). next-Ran v vs s w on r x h e (run_modules-Ran vs r x)

  run_others-Ran :
      (vs : List Json) (s : Deploy) (w : World m)
      → Holds
          (run_others m folder seconds_until elapsed now free vs s w)
          (λ t _. Ran (chosen seconds_until vs) s t)
  unfolding run_others
  run_others-Ran [] s w = refl
  run_others-Ran (v ∷ vs) s w =
      let all = v ∷ vs in
      let logged = record w { log = (Level.info, "verificando data hora dos modulos") ∷ w.log } in
      let dates = log_dates m folder seconds_until elapsed now all logged in
      Holds-bind dates _ (λ _ _. Unit {0}) (λ t _. Ran (chosen seconds_until all) s t)
        (Holds_any dates)
        λ _ u _.
          subst
            (λ (xs : List Json).
              Holds (run_modules m folder seconds_until elapsed now free xs s u)
                (λ t _. Ran (chosen seconds_until all) s t))
            (sym (selected-chosen seconds_until all))
            (run_modules-Ran (chosen seconds_until all) s u)

  -- The modules of the configuration to be run at a time
  abbrev pub others_of : Object → List Json
  others_of config = to_array (value "outros" (modules_of config))

  -- If `onTimer` returns, it has counted the modules of the configuration whose date is past, and has
  -- started a thread for each of as many modules from the beginning of their list, in order, up to one whose
  -- round ends the loop. The modules so taken are those whose date is past if and only if these come
  -- first in the list.
  pub on_timer-Ran :
      (config : Object) (s : Deploy) (w u : World m)
      → get_json_from_file m
          (folder <> "/getConfig.json")
          (record w { log = (Level.info, "Iniciando timer") ∷ w.log })
        ≡ ok config u
      → has "outros" (modules_of config) ≡ true
      → is_array (value "outros" (modules_of config)) ≡ true
      → Holds
          (on_timer m folder seconds_until elapsed now free s w)
          (λ t _. Ran (chosen seconds_until (others_of config)) s t)
        × ((chosen seconds_until (others_of config)
              ≡ keep (is_past seconds_until) (others_of config))
            ↔ DueFirst seconds_until (others_of config))
  unfolding on_timer
  on_timer-Ran config s w u reads there listed =
      let vs = others_of config in
      (
        rw (reads, there, listed) (run_others-Ran vs s u),
        (due-selected seconds_until vs, selected-due seconds_until vs),
      )
