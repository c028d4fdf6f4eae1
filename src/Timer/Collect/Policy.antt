-- ===== src/Timer/Collect/Policy.antt =====
-- On which days `enviarColeta` sends, and what it notes.
use cacic_agente.Base.{
  ◌≡◌, Bool, true, false, not, ◌||◌, String, ◌<>◌, arith, if◌then◌else◌, is_empty, is_some,
  at_least, none,
}
use cacic_agente.Json.{text, variant_bool, variant_text}
use cacic_agente.Machine.{Machine}
use cacic_agente.World.{World, ok, Ensures, Silent, lookup, store}
use cacic_agente.Cacic.{set_values}
use cacic_agente.Timer.Collect.{
  send_collection, send_collection_diff, send_if_due, is_collection_forced,
}

module _ (m : Machine) (folder : String) where
  -- Whether the collection is due: it is forced, it is flagged, its day is not known, or seven days
  -- have passed.
  abbrev pub is_due : Bool → World m → Bool
  is_due forced w =
      forced
      || variant_bool (lookup "enviaColeta" w.registry)
      || is_empty (variant_text (lookup "dataColetaEnviada" w.registry))
      || at_least 7 (m.days_since (variant_text (lookup "dataColetaEnviada" w.registry)))

  abbrev pub has_collection : World m → Bool
  has_collection w = is_some (m.read w.disk (folder <> "/coleta.json"))

  -- If coleta.json is there and the collection is not due, nothing is sent and nothing is noted.
  send_if_due_idle :
      (w : World m)
      → has_collection w ≡ true
      → is_collection_forced m folder w ≡ ok false w
      → is_due false w ≡ false
      → Ensures (send_if_due m folder w) (λ b v. (b ≡ false) × Silent w v)
  unfolding send_if_due
  send_if_due_idle w there unforced idle = ground arith

  -- If coleta.json is there and the collection is due, and it is forced or not flagged, then
  -- `enviarColeta` does what `realizarEnviodeColeta` does, provided that returns, and notes today as
  -- the day exactly if that went well.
  pub send_if_due_plain :
      (w u : World m) (forced sent : Bool)
      → has_collection w ≡ true
      → is_collection_forced m folder w ≡ ok forced w
      → is_due forced w ≡ true
      → (forced || not (variant_bool (lookup "enviaColeta" w.registry))) ≡ true
      → send_collection m folder w ≡ ok sent u
      → Ensures (send_if_due m folder w) (λ b v.
        (b ≡ sent)
        × (v.disk ≡ u.disk)
        × (v.sent ≡ u.sent)
        × (v.registry
            ≡ (if sent then store "dataColetaEnviada" (text m.today) u.registry else u.registry)))
  unfolding send_if_due set_values
  send_if_due_plain w u forced sent there f due plain s = ground arith

  -- A flagged collection that is not forced and was sent counts as not sent, and its day is not noted, whenever there
  -- is no coletaDiff.json.
  send_if_due_without_diff :
      (w u : World m)
      → has_collection w ≡ true
      → is_collection_forced m folder w ≡ ok false w
      → variant_bool (lookup "enviaColeta" w.registry) ≡ true
      → send_collection m folder w ≡ ok true u
      → m.read u.disk (folder <> "/coletaDiff.json") ≡ none
      → send_if_due m folder w ≡ ok false u
  unfolding send_if_due send_collection_diff
  send_if_due_without_diff w u there f flagged s lacks = ground arith
