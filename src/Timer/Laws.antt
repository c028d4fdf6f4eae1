-- ===== src/Timer/Laws.antt =====
-- Reading the configuration and the address changes nothing but the log.
use cacic_agente.Base.{◌≡◌, refl, String, arith}
use cacic_agente.Machine.{Machine}
use cacic_agente.World.{World, Holds, Ensures, Silent}
use cacic_agente.Cacic.Laws.{get_json-Silent}
use cacic_agente.Timer.{application_url, connection, config_path}

module _ (m : Machine) (w : World m) where
  pub application_url-Silent :
      (folder : String) → Holds (application_url m folder w) (λ _ v. Silent w v)
  unfolding application_url
  application_url-Silent folder = ground (arith, get_json-Silent m w (config_path m folder))

  pub connection-Silent :
      (folder server : String) → Ensures (connection m folder server w) (λ _ v. v ≡ w)
  unfolding connection
  connection-Silent folder server = refl
