-- ===== src/InstallCacic.antt =====
-- `InstallCacic` (install-cacic/installcacic.cpp), the installer for the command line. What it prints
-- to the console is left out, and the folder that it makes, since a disk has no folders.
pub mod Arguments
pub mod Install
pub mod Laws
pub mod Uninstall
pub mod Update
use cacic_agente.Base.{
  Bool, true, false, not, ◌&&◌, String, ◌<>◌, ◌===◌, Option, none, some, List, [], ◌∷◌, ◌++◌,
  if◌then◌else◌, is_some,
}
use cacic_agente.Collection
use cacic_agente.Json.{text}
use cacic_agente.Log.{Level}
use cacic_agente.Machine.{Machine}
use cacic_agente.World.{World, M, ok, ◌>>=◌, ◌>>◌, pure, write_log, Registry}
use cacic_agente.Cacic.{set_values}
use cacic_agente.InstallCacic.Arguments.{
  Params, argument, argument_or_empty, count, valid_arguments,
}

-- What `run` does
pub data Command : Type 0 where
  install : Params → Command
  uninstall : Command
  configure : Params → Command
  update_service : Command
  force_collection : Command
  wrong_arguments : Command

abbrev pub command_named : Option String → Params → Command
command_named none args = wrong_arguments
command_named (some d) args =
    if d === "uninstall"
    then uninstall
    else if d === "configure"
    then configure args
    else if d === "updateService"
    then update_service
    else if d === "forcaColeta"
    then force_collection
    else wrong_arguments

-- The tests of `run` on what `validaParametros` gives; `none` is a read of the first character of an
-- empty text.
unfoldable pub command_of : List String → Option Command
command_of argv = Collection.◌>>=◌ (valid_arguments argv) λ (args, complete).
    some (if complete then install args else command_named (argument "default" args) args)

abbrev pub value_for : String → Option String → Registry
value_for key none = []
value_for key (some s) = (key, text s) ∷ []

-- The values that `configurar` stores
unfoldable pub new_values : Params → Registry
new_values args =
    value_for "applicationUrl" (argument "host" args)
    ++ (value_for "usuario" (argument "user" args) ++ value_for "senha" (argument "pass" args))

module _ (m : Machine) where
  log_change : Option String → String → M m (Unit {0})
  log_change none message = pure tt
  log_change (some s) message = write_log m Level.info message

  unfoldable pub store_values : Params → M m (Unit {0})
  unfolding log_change
  store_values args = do
    log_change (argument "host" args) ("Host alterado para " <> argument_or_empty "host" args)
    log_change (argument "user" args) ("Usuário alterado para " <> argument_or_empty "user" args)
    log_change (argument "pass" args) "Senha alterada."
    set_values m (new_values args)

  -- `InstallCacic::configurar`
  unfoldable pub change_values : Params → M m (Unit {0})
  change_values args = if count args then store_values args else pure tt
