-- ===== src/World/Route.antt =====
-- The routes of the manager (src/identificadores.h).
use cacic_agente.Base.{String}

abbrev pub get_test : String
get_test = "/ws/neo/getTest"

abbrev pub get_login : String
get_login = "/ws/neo/getLogin"

abbrev pub get_config : String
get_config = "/ws/neo/config"

abbrev pub authorize : String
authorize = "/ws/neo/autoriza"

abbrev pub confirm : String
confirm = "/ws/neo/confirma"

abbrev pub collection : String
collection = "/ws/neo/coleta"

abbrev pub collection_diff : String
collection_diff = "/ws/neo/modifications"

abbrev pub log : String
log = "/ws/neo/log"

abbrev pub get_map : String
get_map = "/ws/neo/mapa/config"
