-- ===== src/InstallCacic/Arguments.antt =====
-- The arguments of the installer (`InstallCacic::validaParametros`).
pub mod Laws
use Prim.Native.Char.{code}
use cacic_agente.Base.{
  Bool, true, false, not, ◌&&◌, String, ◌===◌, ◌==◌, Option, none, some, List, [], ◌∷◌, split,
  get_elem?, if◌then◌else◌, is_some, without_first,
}
use cacic_agente.Collection.{◌>>=◌, pure}

-- `QMap<QString, QString>`: a key stands in it once.
abbrev pub Params : Type 0
Params = List (String × String)

unfoldable pub argument : String → Params → Option String
argument k [] = none
argument k ((j, v) ∷ args) = if j === k then some v else argument k args

unfoldable pub set_argument : String → String → Params → Params
set_argument k v [] = (k, v) ∷ []
set_argument k v ((j, w) ∷ args) = if j === k then (k, v) ∷ args else (j, w) ∷ set_argument k v args

abbrev pub argument_or_empty : String → Params → String
argument_or_empty k args = elim (argument k args) [ none ↦ "" | some v ↦ v ]

-- `map.size() > 1`
abbrev pub count : Params → Bool
count [] = false
count (a ∷ []) = false
count (a ∷ b ∷ args) = true

-- `s.at(0) == '-'`
unfoldable pub is_dashed : String → Option Bool
is_dashed String.[] = none
is_dashed (String.◌∷◌ c s) = some (code c == b'-')

-- What an argument with a dash and these parts sets
abbrev pub set_parts : String → List String → Params → Params
set_parts arg [] args = args
set_parts arg (p ∷ []) args = set_argument "default" (without_first arg) args
set_parts arg (p ∷ v ∷ parts) args = set_argument (without_first p) v args

abbrev pub first_of : List String → String
first_of [] = ""
first_of (p ∷ parts) = p

-- The round of the loop for an argument. With an equals sign in it, the first character of the
-- argument is that of its first part.
unfoldable pub read_argument : String → Params → Option Params
read_argument arg args = do
  dashed ← is_dashed (first_of (split b'=' arg))
  pure (if dashed then set_parts arg (split b'=' arg) args else args)

unfoldable pub read_arguments : List String → Params → Option Params
read_arguments [] args = some args
read_arguments (a ∷ argv) args = read_argument a args >>= read_arguments argv

-- `*ok`
abbrev pub is_complete : Params → Bool
is_complete args =
    is_some (argument "host" args)
    && is_some (argument "user" args)
    && is_some (argument "pass" args)
    && not (is_some (argument "default" args))

-- `InstallCacic::validaParametros`
unfoldable pub valid_arguments : List String → Option (Params × Bool)
valid_arguments argv = do args ← read_arguments argv []; pure (args, is_complete args)
