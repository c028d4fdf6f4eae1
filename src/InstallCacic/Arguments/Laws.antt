-- ===== src/InstallCacic/Arguments/Laws.antt =====
-- What is read of the arguments.
use Prim.Native.Char.{Char, code}
use text.Mathlib.TextEquality.{eq_iff}
use text.Mathlib.TextLemmas.{nil-append, cons-append, append_assoc}
use cacic_agente.Base.{
  ◌≡◌, refl, ap, ◌∙◌, Bool, true, false, ◌||◌, String, ◌<>◌, ◌==◌, none, some, List, [], ◌∷◌, not,
  is_some, cons_head, Bool-cases, split, split-append, split_whole, has_char, Option-cases, Option,
  ◌===◌, ◌&&◌, if◌then◌else◌, map, inl, inr, arith,
}
use cacic_agente.Collection.{M, ◌>>=◌, pure}
use cacic_agente.InstallCacic.Arguments.{
  Params, argument, set_argument, is_dashed, first_of, read_argument, read_arguments, is_complete,
  valid_arguments,
}

-- An argument that sets a name
abbrev pub setting : String → String → String
setting name v = "-" <> (name <> ("=" <> v))

split_setting :
    (name v : String)
    → has_char b'=' ("-" <> name) ≡ false
    → has_char b'=' v ≡ false
    → split b'=' ("-" <> (name <> ("=" <> v))) ≡ ("-" <> name) ∷ v ∷ []
split_setting name v h g =
    rw (← append_assoc "-" name ("=" <> v))
      (split-append "=" ("-" <> name) v h ∙ ap (◌∷◌ ("-" <> name)) (split_whole b'=' v g))

pub read_argument-setting :
    (name v : String) (args : Params)
    → has_char b'=' ("-" <> name) ≡ false
    → has_char b'=' v ≡ false
    → read_argument (setting name v) args ≡ some (set_argument name v args)
unfolding read_argument is_dashed
read_argument-setting name v args h g =
    rw (split_setting name v h g, cons-append "-" "" name, nil-append name) refl

-- The value that is given to a name, the last one if there are several
abbrev pub last_given : String → List (String × String) → Option String → Option String
last_given k [] found = found
last_given k ((name, v) ∷ given) found = last_given k given (if name === k then some v else found)

abbrev pub settings : List (String × String) → List String
settings given = map (λ (name, v). setting name v) given

-- No name and no value has an equals sign.
abbrev pub IsPlain : List (String × String) → Type 0
IsPlain [] = Unit
IsPlain ((name, v) ∷ given) =
    (has_char b'=' ("-" <> name) ≡ false) × (has_char b'=' v ≡ false) × IsPlain given

argument-set_argument :
    (k name v : String) (args : Params)
    → argument k (set_argument name v args) ≡ (if name === k then some v else argument k args)
unfolding argument set_argument
argument-set_argument k name v [] = refl
argument-set_argument k name v ((j, w) ∷ args) =
    ground (arith, eq_iff j name, eq_iff j k, eq_iff name k, argument-set_argument k name v args)

-- What was read gives each name its value.
abbrev pub Gives : List (String × String) → Params → Params → Type 0
Gives given before args = (k : String) → argument k args ≡ last_given k given (argument k before)

read_arguments-settings :
    (given : List (String × String)) (before : Params)
    → IsPlain given
    → (args : Params) × (read_arguments (settings given) before ≡ some args)
      × Gives given before args
unfolding read_arguments
read_arguments-settings [] before plain = (before, refl, λ k. refl)
read_arguments-settings ((name, v) ∷ given) before (h, g, plain) =
    let (args, read, gives) = read_arguments-settings given (set_argument name v before) plain in
    (
      args,
      rw (read_argument-setting name v before h g) read,
      λ k.
          gives k
          ∙ ap (λ (x : Option String). last_given k given x)
              (argument-set_argument k name v before),
    )

-- The arguments of the installer, after the path of the program, are read as they were written, in any
-- order: each name has the value that was given to it last. They are complete exactly if the
-- address, the user and the password were given, and nothing named default. The path is not empty and
-- begins with no dash and no equals sign, and no name and no value has an equals sign.
pub valid_arguments-setting :
    (program : String) (given : List (String × String))
    → is_dashed (first_of (split b'=' program)) ≡ some false
    → IsPlain given
    → (args : Params) × (valid_arguments (program ∷ settings given) ≡ some (args, is_complete args))
      × ((k : String) → argument k args ≡ last_given k given none)
      × (is_complete args ≡ (
          is_some (last_given "host" given none)
          && is_some (last_given "user" given none)
          && is_some (last_given "pass" given none)
          && not (is_some (last_given "default" given none))))
unfolding valid_arguments read_arguments read_argument argument
valid_arguments-setting program given undashed plain =
    let (args, read, gives) = read_arguments-settings given [] plain in
    (
      args,
      rw (undashed, read) refl,
      gives,
      rw (gives "host", gives "user", gives "pass", gives "default") refl,
    )

-- An argument that is empty, or begins with an equals sign
abbrev pub is_faulty : String → Bool
is_faulty String.[] = true
is_faulty (String.◌∷◌ c s) = code c == b'='

abbrev pub has_faulty : List String → Bool
has_faulty [] = false
has_faulty (a ∷ argv) = is_faulty a || has_faulty argv

is_some_bind : {A B : Type 0} (m : M A) (f : A → B) → is_some (m >>= λ a. pure (f a)) ≡ is_some m
is_some_bind none f = refl
is_some_bind (some a) f = refl

head_dashed :
    (c : Char) (parts : List String)
    → is_some (is_dashed (first_of (cons_head (String.◌∷◌ c "") parts))) ≡ true
unfolding is_dashed
head_dashed c [] = refl
head_dashed c (p ∷ parts) = rw (cons-append c "" p) refl

is_some-is_dashed : (a : String) → is_some (is_dashed (first_of (split b'=' a))) ≡ not (is_faulty a)
unfolding is_dashed split
is_some-is_dashed String.[] = refl
is_some-is_dashed (String.◌∷◌ c s) = elim (Bool-cases (code c == b'=')) [
  | inl sign ↦ rw sign refl
  | inr other ↦ rw other (head_dashed c (split b'=' s))
]

is_some-read_argument :
    (a : String) (args : Params) → is_some (read_argument a args) ≡ not (is_faulty a)
unfolding read_argument
is_some-read_argument a args =
    is_some_bind (is_dashed (first_of (split b'=' a))) _ ∙ is_some-is_dashed a

is_some-read_arguments :
    (argv : List String) (args : Params)
    → is_some (read_arguments argv args) ≡ not (has_faulty argv)
unfolding read_arguments
is_some-read_arguments [] args = refl
is_some-read_arguments (a ∷ argv) args = elim (Option-cases (read_argument a args)) [
  | inl fault ↦ rw fault (ground (arith, ap is_some fault, is_some-read_argument a args))
  | inr (b, read) ↦
      rw read (
        ground
          (arith, ap is_some read, is_some-read_argument a args, is_some-read_arguments argv b))
]

-- `validaParametros` reads the first character of an empty text exactly if an argument is empty or
-- begins with an equals sign.
pub is_some-valid_arguments :
    (argv : List String) → is_some (valid_arguments argv) ≡ not (has_faulty argv)
unfolding valid_arguments
is_some-valid_arguments argv =
    is_some_bind (read_arguments argv []) (λ args. (args, is_complete args))
    ∙ is_some-read_arguments argv []
