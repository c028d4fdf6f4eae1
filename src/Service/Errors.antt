-- ===== src/Service/Errors.antt =====
-- `ServiceController::trataErro`: the error codes of Windows that it tells apart.
use cacic_agente.Base.{ℤ, pos, negsuc, ◌≡◌, String, arith}

-- The constants of winerror.h that the code names; `other` is any other error.
pub data SystemError : Type 0 where
  access_denied circular_dependency duplicate_service_name invalid_handle : SystemError
  invalid_name invalid_parameter invalid_service_account service_exists : SystemError
  service_marked_for_delete timeout path_not_found service_already_running : SystemError
  service_database_locked service_disabled service_request_timeout : SystemError
  service_not_active service_does_not_exist other : SystemError

-- The value of `iLastError`
unfoldable pub error_code : SystemError → ℤ
error_code access_denied = pos 0
error_code circular_dependency = pos 1
error_code duplicate_service_name = pos 2
error_code invalid_handle = pos 3
error_code invalid_name = pos 4
error_code invalid_parameter = pos 5
error_code invalid_service_account = pos 6
error_code service_exists = pos 7
error_code service_marked_for_delete = pos 8
error_code timeout = pos 9
error_code path_not_found = pos 10
error_code service_already_running = pos 11
error_code service_database_locked = pos 12
error_code service_disabled = pos 13
error_code service_request_timeout = pos 14
error_code service_not_active = pos 15
error_code service_does_not_exist = pos 16
error_code other = negsuc 0

-- What follows the detail in `lastError`
unfoldable pub error_message : SystemError → String
error_message access_denied = ": Acesso negado"
error_message circular_dependency = ": A circular service dependency was specified"
error_message duplicate_service_name = ": Nome do serviço já existente"
error_message invalid_handle = ": Service Control Mananger inválido"
error_message invalid_name = ": Nome inválido"
error_message invalid_parameter = ": Parâmetro invalido"
error_message invalid_service_account = ": Conta do serviço inválida"
error_message service_exists = ": Serviço já existente"
error_message service_marked_for_delete = ": Serviço marcado para exclusão"
error_message timeout = ": Tempo limite atingido"
error_message path_not_found = ": Path não encontrado"
error_message service_already_running = ": Serviço já está rodando"
error_message service_database_locked = ": A base de dados de serviço está trancada"
error_message service_disabled = ": O serviço foi desativado"
error_message service_request_timeout =
    ": O processo do serviço foi iniciado, mas não completou a operação"
error_message service_not_active = ": O serviço não está ativo"
error_message service_does_not_exist = ": O serviço não existe"
error_message other = ": Desconhecido"

-- The code tells the errors apart.
pub error_code-injective : (a b : SystemError) → error_code a ≡ error_code b → a ≡ b
unfolding error_code
error_code-injective a b h = ground arith
