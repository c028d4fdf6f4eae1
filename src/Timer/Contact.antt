-- ===== src/Timer/Contact.antt =====
-- `CacicTimer`: the exchange with the manager that starts every round of the timer.
pub mod Sent
pub mod Laws
pub mod Saved
use cacic_agente.Base.{Bool, true, false, ◌||◌, String, ◌<>◌, [], ◌∷◌, if◌then◌else◌, is_empty}
use cacic_agente.Json.{
  Object, end, obj, value, insert, touch, has, to_object, to_string, is_empty_object, text,
}
use cacic_agente.Log.{Level}
use cacic_agente.Machine.{Machine}
use cacic_agente.World.{World, M, ok, exit, ◌>>=◌, ◌>>◌, pure, write_log}
use cacic_agente.World.Route
use cacic_agente.Cacic.{set_json_to_file, get_json_from_file, set_values}
use cacic_agente.Comm.{Comm, comm, login}
use cacic_agente.Timer.{agent_computer, config_path, application_url, connection}

-- `resposta.isEmpty() || resposta.contains("error")`
abbrev pub is_failure : Object → Bool
is_failure r = is_empty_object r || has "error" r

-- What is saved of an answer.
abbrev pub content_of : Object → Object
content_of r = if has "reply" r then to_object (value "reply" r) else r

module _ (m : Machine) (folder : String) where
  -- `as`, with the computer
  abbrev pub inventory : Object
  inventory = insert "computador" (obj m.computer) end

  -- The answer cannot be used; reading its error makes it have one.
  unusable : String → Object → M m Object
  unusable message r = do
    write_log m Level.error (message <> to_string (value "error" r))
    pure (touch "error" r)

  test_answered : Object → M m Object
  unfolding unusable set_json_to_file
  test_answered r =
      if is_failure r
      then unusable "Falha na execução do getTest(). " r
      else (do _ ← set_json_to_file m (content_of r) (folder <> "/getTest.json"); pure r)

  test_again : Comm → Bool × Object → M m (Bool × Object)
  test_again c (true, r) = pure (true, r)
  test_again c (false, r) = comm m c Route.get_test inventory true

  -- `CacicTimer::getTest`
  unfoldable pub get_test : Comm → M m Object
  unfolding test_again test_answered
  get_test c = do
    first ← comm m c Route.get_test inventory true
    (done, r) ← test_again c first
    test_answered r

  register_url : String → M m (Unit {0})
  register_url url =
      if is_empty url
      then write_log m Level.error "Url do gerente vazia no arquivo de configurações."
      else set_values m (("applicationUrl", text url) ∷ [])

  save_config : Object → M m Object
  unfolding register_url set_json_to_file get_json_from_file
  save_config r = do
    _ ← set_json_to_file m (content_of r) (config_path m folder)
    config ← get_json_from_file m (config_path m folder)
    register_url (to_string (value "applicationUrl" (agent_computer config)))
    pure r

  config_answered : Object → M m Object
  unfolding unusable save_config
  config_answered r =
      if is_failure r then unusable "Falha na execução do getConfig()." r else save_config r

  -- `CacicTimer::getConfig`
  unfoldable pub get_config : Comm → M m Object
  unfolding config_answered
  get_config c = do (done, r) ← comm m c Route.get_config inventory true; config_answered r

  login_again : Bool × Object × Comm → M m (Bool × Object × Comm)
  login_again (done, r, c) = if is_failure r then login m c else pure (done, r, c)

  login_refused : Object → M m Bool
  login_refused r = do
    write_log m Level.error ("Erro no login: " <> to_string (value "error" r))
    write_log m Level.info "Falha na tentativa de login."
    pure false

  config_outcome : Object → M m Bool
  config_outcome r =
      if has "error" r
      then (do
        write_log m Level.error
            ("Erro ao pegar informações do gerente: " <> to_string (value "error" r))
        pure false)
      else pure true

  after_test : Comm → Object → M m Bool
  unfolding get_config config_outcome
  after_test c r =
      if has "error" r
      then (do write_log m Level.info "Falha ao tentar pegar informações do gerente."; pure false)
      else (do s ← get_config c; config_outcome s)

  after_login : Bool × Object × Comm → M m Bool
  unfolding login_refused get_test after_test
  after_login (done, r, c) =
      if is_failure r then login_refused r else (do s ← get_test c; after_test c s)

  talk : Comm → M m Bool
  unfolding login_again after_login
  talk c = do
    write_log m Level.info ("Realizando comunicação em: " <> c.manager_url)
    first ← login m c
    second ← login_again first
    after_login second

  -- `CacicTimer::comunicarGerente`
  unfoldable pub communicate : M m Bool
  unfolding talk
  communicate = do
    server ← application_url m folder
    if is_empty server then pure false else (do c ← connection m folder server; talk c)
