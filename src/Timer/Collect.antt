-- ===== src/Timer/Collect.antt =====
-- `CacicTimer`: when the collection of the computer's data is sent, and what is noted of it.
pub mod Laws
pub mod Policy
use cacic_agente.Base.{
  Bool, true, false, ◌&&◌, ◌||◌, not, String, ◌<>◌, ◌===◌, List, [], ◌∷◌, if◌then◌else◌, is_empty,
  at_least,
}
use cacic_agente.Json.{
  Json, Object, obj, value, insert, to_object, to_string, has, is_null, is_empty_object, Variant,
  flag, text, variant_bool, variant_text,
}
use cacic_agente.Log.{Level}
use cacic_agente.Machine.{Machine}
use cacic_agente.World.{World, M, ok, exit, ◌>>=◌, ◌>>◌, pure, write_log, exists}
use cacic_agente.World.Route
use cacic_agente.Cacic.{get_json_from_file, get_value, set_values}
use cacic_agente.Comm.{comm}
use cacic_agente.Timer.{
  agent_computer, settings, is_usable, config_path, application_url, connection,
}

-- The value of "nu_forca_coleta" that forces a collection.
abbrev pub is_forcing : Json → Bool
is_forcing v = if is_null v then false else to_string v === "true" || to_string v === "True"

abbrev pub lacks_network : Object → Bool
lacks_network computer = is_null (value "networkDevices" computer)

abbrev pub lacks_system : Object → Bool
lacks_system computer =
    is_null (value "operatingSystem" computer)
    || is_null (value "nomeOs" (to_object (value "operatingSystem" computer)))

module _ (m : Machine) (folder : String) where
  -- `CacicTimer::verificaForcarColeta`
  unfoldable pub is_collection_forced : M m Bool
  is_collection_forced = do
    config ← get_json_from_file m (config_path m folder)
    pure (is_usable config && is_forcing (value "nu_forca_coleta" (settings config)))

  -- `CacicTimer::registrarDataEnvioDeColeta`
  unfoldable pub note_date : M m (Unit {0})
  note_date = set_values m (("dataColetaEnviada", text m.today) ∷ [])

  log_if : Bool → String → M m (Unit {0})
  log_if b s w = if b then write_log m Level.error s w else ok tt w

  refuse_basics : Object → M m Bool
  unfolding log_if
  refuse_basics computer = do
    write_log m Level.info "Não foi possível recuperar as informações básicas do computador."
    log_if (lacks_network computer) "Falha ao recuperar os dados de rede."
    log_if (lacks_system computer) "Falha ao recuperar os dados do Sistema Operacional."
    pure false

  -- What follows on the answer to a collection.
  collection_answered : Bool × Object → M m Bool
  unfolding set_values
  collection_answered (true, r) = do
    if is_empty_object r || has "error" r
        then pure tt
        else set_values m (("enviaColeta", flag false) ∷ [])
    write_log m Level.info "Coleta enviada com sucesso."
    pure true
  collection_answered (false, r) =
      if has "error" r
      then (do
        write_log m Level.error ("Falha na coleta: " <> to_string (value "error" r))
        pure false)
      else pure false

  post_collection : Object → String → M m Bool
  unfolding collection_answered
  post_collection o server = do
    c ← connection m folder server
    write_log m Level.info "Enviando coleta ao gerente."
    r ← comm m c Route.collection o true
    collection_answered r

  -- `CacicTimer::realizarEnviodeColeta`, once coleta.json has been read
  send_data : Object → M m Bool
  unfolding refuse_basics post_collection
  send_data o =
      if is_empty_object o
      then (do
        write_log m Level.error "Falha na coleta: Arquivo JSON vazio ou inexistente."
        pure false)
      else if lacks_network m.computer || lacks_system m.computer
      then refuse_basics m.computer
      else (do
        server ← application_url m folder
        if is_empty server
            then pure false
            else post_collection (insert "computador" (obj m.computer) o) server)

  -- `CacicTimer::realizarEnviodeColeta`
  unfoldable pub send_collection : M m Bool
  unfolding send_data
  send_collection = do o ← get_json_from_file m (folder <> "/coleta.json"); send_data o

  diff_answered : Bool × Object → M m Bool
  diff_answered (done, r) = do
    if has "error" r
        then write_log m Level.error
            ("Falha ao enviar a deferença de coleta: " <> to_string (value "error" r))
        else pure tt
    pure done

  post_diff : Object → String → M m Bool
  unfolding diff_answered
  post_diff o server = do
    c ← connection m folder server
    write_log m Level.info "Enviando coleta Diff ao gerente."
    r ← comm m c Route.collection_diff o true
    diff_answered r

  send_diff_data : Object → M m Bool
  unfolding post_diff
  send_diff_data o =
      if is_empty_object o
      then (do
        write_log m Level.error
            "Falha ao ler a diferença de coleta: Arquivo JSON vazio ou inexistente."
        pure false)
      else (do
        server ← application_url m folder
        if is_empty server then pure false else post_diff o server)

  -- `CacicTimer::enviarColetaDiff`
  unfoldable pub send_collection_diff : M m Bool
  unfolding send_diff_data
  send_collection_diff = do
    there ← exists m (folder <> "/coletaDiff.json")
    if there
        then (do o ← get_json_from_file m (folder <> "/coletaDiff.json"); send_diff_data o)
        else pure false

  -- Notes the day if the sending before it went well.
  abbrev noting : Bool → M m Bool
  noting sent = if sent then (do note_date; pure true) else pure false

  -- The branch of the registry's flag "enviaColeta": both must be sent.
  send_flagged : M m Bool
  unfolding note_date
  send_flagged = do
    sent ← send_collection
    if sent then (do diff ← send_collection_diff; noting diff) else pure false

  -- The branches by the day of the last collection.
  send_by_date : String → M m Bool
  unfolding note_date
  send_by_date date =
      if is_empty date
      then (do
        sent ← send_collection
        if sent
            then (do
              write_log m Level.info
                  "Data da antiga coleta não encontrada, forçando o envio da coleta."
              noting true)
            else pure false)
      else if at_least 7 (m.days_since date)
      then (do sent ← send_collection; noting sent)
      else (do write_log m Level.info "Sem diferença na coleta."; pure false)

  -- The branch of a collection that the manager forces.
  send_forced : M m Bool
  unfolding note_date
  send_forced = do
    sent ← send_collection
    if sent
        then (do write_log m Level.info "Coleta forçada enviada com sucesso."; noting true)
        else pure false

  send_unforced : M m Bool
  unfolding send_flagged send_by_date
  send_unforced = do
    flagged ← get_value m "enviaColeta"
    date ← get_value m "dataColetaEnviada"
    if variant_bool flagged then send_flagged else send_by_date (variant_text date)

  -- `CacicTimer::enviarColeta`
  unfoldable pub send_if_due : M m Bool
  unfolding send_unforced send_forced
  send_if_due = do
    there ← exists m (folder <> "/coleta.json")
    if there
        then (do forced ← is_collection_forced; if forced then send_forced else send_unforced)
        else (do write_log m Level.info "Arquivo de coleta não encontrado."; pure false)
