-- ===== src/InstallCacic/Laws.antt =====
-- What `-configure` changes.
use mathlib.Core.List.{foldl}
use cacic_agente.Base.{
  ◌≡◌, refl, ◌∙◌, ap, true, String, ◌===◌, Option, none, some, [], ◌∷◌, ◌++◌, if◌then◌else◌, arith,
}
use cacic_agente.Json.{Variant, text}
use cacic_agente.Machine.{Machine}
use cacic_agente.World.{World, ◌>>◌, Registry, lookup, store, Ensures}
use cacic_agente.World.Laws.{Ensures-mono}
use cacic_agente.Cacic.{set_values}
use cacic_agente.Cacic.Laws.{lookup-store}
use cacic_agente.InstallCacic.Arguments.{Params, argument, count}
use cacic_agente.InstallCacic.{store_values, change_values, log_change, new_values, value_for}

-- What a key reads once the values were stored
abbrev pub found_in : String → Variant → Registry → Variant
found_in k v [] = v
found_in k v ((j, w) ∷ r) = found_in k (if j === k then w else v) r

lookup-foldl :
    (k : String) (vs : Registry) (r : Registry)
    → lookup k (foldl (λ t (j, v). store j v t) r vs) ≡ found_in k (lookup k r) vs
lookup-foldl k [] r = refl
lookup-foldl k ((j, v) ∷ vs) r =
    lookup-foldl k vs (store j v r) ∙ ap (λ (x : Variant). found_in k x vs) (lookup-store k j v r)

-- The value that a key is given
abbrev pub given : Option String → Variant → Variant
given none v = v
given (some s) v = text s

found_in-value_for :
    (k key : String) (o : Option String) (v : Variant) (r : Registry)
    → found_in k v (value_for key o ++ r) ≡ found_in k (if key === k then given o v else v) r
found_in-value_for k key none v r = ground arith
found_in-value_for k key (some s) v r = refl

found_in-value_for_last :
    (k key : String) (o : Option String) (v : Variant)
    → found_in k v (value_for key o) ≡ (if key === k then given o v else v)
found_in-value_for_last k key none v = ground arith
found_in-value_for_last k key (some s) v = refl

-- What a key reads after `configurar`
read_new : (k : String) (v : Variant) (args : Params) → Variant
read_new k v args =
    let url = if "applicationUrl" === k then given (argument "host" args) v else v in
    let user = if "usuario" === k then given (argument "user" args) url else url in
    if "senha" === k then given (argument "pass" args) user else user

found_in-new_values :
    (k : String) (v : Variant) (args : Params) → found_in k v (new_values args) ≡ read_new k v args
unfolding new_values read_new
found_in-new_values k v args =
    found_in-value_for k "applicationUrl" (argument "host" args) v _
    ∙ found_in-value_for k "usuario" (argument "user" args) _ _
    ∙ found_in-value_for_last k "senha" (argument "pass" args) _

stored :
    (m : Machine) (a b c : Option String) (s t u : String) (vs : Registry) (w : World m)
    → Ensures ((do log_change m a s; log_change m b t; log_change m c u; set_values m vs) w) (λ _ v.
      (v.disk ≡ w.disk)
      × (v.sent ≡ w.sent)
      × ((k : String) → lookup k v.registry ≡ found_in k (lookup k w.registry) vs))
unfolding log_change set_values
stored m none none none s t u vs w = (refl, refl, λ k. lookup-foldl k vs w.registry)
stored m none none (some c) s t u vs w = (refl, refl, λ k. lookup-foldl k vs w.registry)
stored m none (some b) none s t u vs w = (refl, refl, λ k. lookup-foldl k vs w.registry)
stored m none (some b) (some c) s t u vs w = (refl, refl, λ k. lookup-foldl k vs w.registry)
stored m (some a) none none s t u vs w = (refl, refl, λ k. lookup-foldl k vs w.registry)
stored m (some a) none (some c) s t u vs w = (refl, refl, λ k. lookup-foldl k vs w.registry)
stored m (some a) (some b) none s t u vs w = (refl, refl, λ k. lookup-foldl k vs w.registry)
stored m (some a) (some b) (some c) s t u vs w = (refl, refl, λ k. lookup-foldl k vs w.registry)

-- `configurar` with an argument besides -configure changes nothing but the registry and the log; the
-- address and the user that are given are stored under the keys that `install` stores them under,
-- and the password that `install` stores stays as it was, whether one is given or not.
pub change_values_keys :
    (m : Machine) (args : Params) (w : World m)
    → count args ≡ true
    → Ensures (change_values m args w) (λ _ v.
      (v.disk ≡ w.disk)
      × (v.sent ≡ w.sent)
      × (lookup "applicationUrl" v.registry
          ≡ given (argument "host" args) (lookup "applicationUrl" w.registry))
      × (lookup "usuario" v.registry ≡ given (argument "user" args) (lookup "usuario" w.registry))
      × (lookup "password" v.registry ≡ lookup "password" w.registry))
unfolding change_values store_values read_new
change_values_keys m args w h = rw h (
    Ensures-mono (store_values m args w) _ _
      (stored m (argument "host" args) (argument "user" args) (argument "pass" args) _ _ _
        (new_values args) w)
      (λ _ v (d, s, keys). (
        d,
        s,
        keys "applicationUrl" ∙ found_in-new_values "applicationUrl" _ args,
        keys "usuario" ∙ found_in-new_values "usuario" _ args,
        keys "password" ∙ found_in-new_values "password" _ args,
      )))
