-- ===== src/Tests/Setup.antt =====
-- The arguments of the installer for the command line, at concrete values.
use cacic_agente.Base.{◌≡◌, refl, true, false, none, some, String, List, [], ◌∷◌, is_some, split}
use cacic_agente.Json.{text}
use cacic_agente.World.{World, Ensures, lookup}
use cacic_agente.InstallCacic.{change_values, command_of, install}
use cacic_agente.InstallCacic.Arguments.{
  Params, valid_arguments, is_complete, argument, set_argument, read_arguments, read_argument,
  is_dashed,
}
use cacic_agente.InstallCacic.Arguments.Laws.{valid_arguments-setting, settings, last_given}
use cacic_agente.InstallCacic.Uninstall.{System}
use cacic_agente.InstallCacic.Laws.{change_values_keys}
use cacic_agente.Tests.Memory.{memory}

-- The arguments in another order
abbrev given : List (String × String)
given = ("user", "u") ∷ ("host", "http://host") ∷ ("pass", "p") ∷ []

valid_arguments-setting_example :
    (args : Params) × (valid_arguments ("install-cacic" ∷ settings given)
      ≡ some (args, is_complete args))
    × ((k : String) → argument k args ≡ last_given k given none)
    × (is_complete args ≡ true)
unfolding split is_dashed
valid_arguments-setting_example =
    valid_arguments-setting "install-cacic" given refl (refl, refl, (refl, refl, (refl, refl, tt)))

-- A password ends at its first equals sign.
cut_password :
    command_of ("-host=h" ∷ "-user=u" ∷ "-pass=a=b" ∷ [])
    ≡ some (install (("host", "h") ∷ ("user", "u") ∷ ("pass", "a") ∷ []))
unfolding command_of valid_arguments read_arguments read_argument is_dashed set_argument argument
    split
cut_password = refl

-- An argument that is empty
empty_argument : is_some (valid_arguments ("install-cacic" ∷ "" ∷ [])) ≡ false
unfolding valid_arguments read_arguments read_argument is_dashed split
empty_argument = refl

abbrev pub installed : World memory
installed = record {
  disk = λ p. none;
  registry = ("password", text "old") ∷ [];
  sent = [];
  log = [];
}

change_values_keys_example :
    Ensures
      (change_values memory (("default", "configure") ∷ ("pass", "new") ∷ []) installed)
      (λ _ v.
        (v.disk ≡ installed.disk)
        × (v.sent ≡ installed.sent)
        × (lookup "applicationUrl" v.registry ≡ lookup "applicationUrl" installed.registry)
        × (lookup "usuario" v.registry ≡ lookup "usuario" installed.registry)
        × (lookup "password" v.registry ≡ text "old"))
unfolding lookup argument
change_values_keys_example =
    change_values_keys memory (("default", "configure") ∷ ("pass", "new") ∷ []) installed refl

-- A system on which each operation succeeds and changes nothing
abbrev steady : System memory
steady = record {
  windows = false;
  command = λ c w. w;
  output = λ c w. "";
  is_installed = λ w. false;
  is_running = λ w. false;
  start = λ w. (true, w);
  stop = λ w. (true, w);
  install = λ w. (true, w);
  uninstall = λ w. (true, w);
  last_error = λ w. "";
  stop_checker = λ w. w;
  open_error = λ p w. "";
  entries = λ w. [];
  delete_folder = λ p w. w;
}

abbrev credentials : Params
credentials = ("host", "http://host") ∷ ("user", "u") ∷ ("pass", "p") ∷ []
