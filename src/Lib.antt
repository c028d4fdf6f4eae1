-- ===== src/Lib.antt =====
-- The agent of Cacic, an inventory of the computers of an organisation: a daemon that asks its
-- manager for a configuration, keeps its modules up to date and sends what it has collected.
--
-- Parts, from the ground up:
--   Base       numbers, texts and lists as the code uses them, over the native numbers
--   Json       the values of QJsonObject and QVariant
--   Log        the levels and names of src/logcacic.cpp
--   Machine    what is not the agent's: files, network, digest, JSON text, processes, calendar.
--              Everything above it takes a machine as a parameter. Machine.Laws states what Qt
--              documents of its files.
--   World      the state that the processes share (disk, registry, requests sent, log) and the
--              monad of the code on it. A step returns, or ends the process by `exit`.
--   Cacic      src/ccacic.cpp: JSON files, registry values, dates, processes, random texts
--   Comm       src/cacic_comm.cpp: comm, login, setUrlGerente; Comm.Download is fileDownload
--   Modules    src/cmodule.cpp and src/cmodulearray.cpp
--   CheckModules  src/checkmodules.cpp: start is `start`, verificaModulo is `verify_module`
--   Timer      cacicD/cacictimer.cpp: getApplicationUrl is `application_url`.
--              Timer.Contact: comunicarGerente is `communicate`, getTest and getConfig keep their
--              names. Timer.Logs: realizarEnvioDeLogs is `send_level_logs`, enviarLogs `send_logs`;
--              the log files are those of the disk, without the lines written by the call itself.
--              Timer.Map: getMapa is `get_map`.
--              Timer.Collect: enviarColeta is `send_if_due`, realizarEnviodeColeta is
--              `send_collection`, enviarColetaDiff is `send_collection_diff`,
--              verificaForcarColeta is `is_collection_forced`, registrarDataEnvioDeColeta is
--              `note_date`. Timer.Period: verificarPeriodicidade is `check_period`, reiniciarTimer
--              is `restart_timer`, and `update_period` is the end of mslot.
--              Timer.Launch: iniciarThread is `start_threads`, verificarEIniciarQMutex is
--              `take_mutex`. Timer.Update: verificarModulos is `verify_modules`, the round of its
--              loop `replace_module`. Timer.Slot: mslot keeps its name.
--              Timer.Clear: removeArquivosEstrangeiros is `remove_foreign_files`, over the tree of
--              Installer.Folder.
--   Thread     src/cacicthread.cpp: iniciarModulo is `start_module`. What the programs of the
--              modules do to the world is a parameter, `Outside`.
--   Gercols    gercols/gercols.cpp and src/ccoleta.cpp: run keeps its name, verificaColeta is
--              `verify_collection`. Gercols.Diff: percorreColeta is `differs`.
--   Socket     the messages between daemon and user interface. Socket.Frame: formatData is
--              `format_data`, and what parseData reads of a line is `message_of`. Socket.Client:
--              cacic-ui/uiclient.cpp, as a state machine, and cacicD/serviceclient.cpp;
--              setupSocketConnection is `setup_socket_connection`. Socket.Server:
--              cacicD/serviceserverthread.cpp and cacic-ui/uiserverthread.cpp.
--   Watch      chksys/chksystimer.cpp: onTimerCheckService, downloadService and verificarModulos are
--              `on_timer_check_service`, `download_service` and `verify_modules`.
--   Deploy     cacicdeploy/deploytimer.cpp: onTimer and confirmaExecucao are `on_timer` and
--              `confirm_execution`, commExecucao is `ask_authorization` and `confirm_end`
--              of Deploy.Exchange.
--   Installer  installcacic-standalone/installcacicsa.cpp and its main.cpp. Installer.Folder:
--              delFolder is `del_folder`, over a tree of files and folders. Installer.Site: what is
--              asked of Windows and of the manager, whose answers are functions of what was done
--              before. Installer.Download: getConfig, downloadService and installCacic are
--              `get_config`, `download_service` and `install_cacic`. Installer.Service:
--              verificaServico is `verify_service`. Installer.Run: exec keeps its
--              name, deleteCacicAntigo is `remove_all_old`, main's loop `read_arguments`.
--   InstallCacic  install-cacic/installcacic.cpp: run is `command_of`, validaParametros
--              `valid_arguments`, configurar `change_values`; InstallCacic.Install: install is
--              `install_agent`; InstallCacic.Uninstall: `uninstall_agent`; InstallCacic.Update:
--              updateService is `update_agent`.
--   Collector  src/ccoleta.cpp: run keeps its name, its slots are `collect_hardware` and
--              `collect_software`.
--   Collection is what the two collections share: the exceptions of the configuration, which
--              setHardwareExceptionClasses reads by `exception_classes`, and the reading of what a
--              command prints. A command prints the same each time while a collection runs.
--   Software   src/cacic_software.cpp: coletaDebian, coletaArch and coletaLinux are
--              `collect_debian`, `collect_arch` and `collect_linux`; Software.Windows: coletaWin is
--              `collect_windows`.
--   Hardware   src/cacic_hardware.cpp on Linux: Hardware.Walk has coletaLinux, `collect_linux`, over
--              the tree of lshw; Hardware.Processor coletaLinuxMem and coletaLinuxCpu;
--              Hardware.Pci coletaLinuxPci; Hardware.Disk coletaLinuxIO, `collect_io`, and
--              coletaGenericPartitionInfo, `generic_partition`; Hardware.Board the rest.
--              Hardware.Windows: coletaWin is `collect_windows`, with the classes of
--              src/hardwareclasses.cpp and wmiSearch of src/wmi.cpp, `search`.
--   Computer   src/cacic_computer.cpp on Linux: networkInterfacesRunning is `devices`, pegarUsu
--              `collect_user`, coletaDados `collect_data`, toJsonObject `computer_json`;
--              Computer.Os and Computer.Windows: src/operatingsystem.cpp. The other modules take
--              the description as the field `computer` of the machine.
--   Service    src/servicecontroller.cpp: Service.Scm is what it asks of Windows with open and
--              close, Service.Wait is waitPending, Service.Operations are start, stop, install,
--              uninstall, isInstalled and isRunning. It has a state of its own, the controller:
--              its handles, its last error and the calls it has made.
--   Tests      a concrete machine, a concrete Windows, and the theorems at them
--
-- The timer builds on CheckModules, Comm and Cacic; CheckModules builds on Modules and
-- Comm.Download; all of them reach the machine through World. A round of the timer, Timer.Slot,
-- puts Contact, CheckModules, Launch, Update and Period together; Launch runs modules by Thread, and
-- sends what Gercols notes by Collect and Logs. The service controller, the sockets and the
-- installer have states of their own.
--
-- Fuel: only the loop of waitPending runs on fuel, since Windows decides when it ends. Each round
-- sleeps a second or more and 30 seconds without progress end it, so that 32 rounds for each value
-- of the check point suffice where time goes on. Numbers are unbounded but the tick count, which
-- wraps at 2 ^ 32, and its difference.
--
-- The registry keeps what is stored in it, and a write to a file that is open does not fail. A
-- read out of range and a read of what nothing has set are values of the model (`none`), where
-- they can occur.
--
-- Not modelled: the copies of other projects (src/crypto++, src/qtservice, src/simplejson,
-- src/QLogger.cpp, src/vregistry.cpp, src/vqtconvert.cpp, src/tinydir.h), the windows of the user
-- interface, src/wcomputer.cpp, the start-up of the
-- processes, the installer with windows, and the requests and the log file of the one without Qt.
-- The removal of an older version's files from the main folder is a parameter of the timer's round,
-- since the disk of a machine has no folders. http-server is left.
pub mod Base
pub mod Json
pub mod Log
pub mod Machine
pub mod World
pub mod Cacic
pub mod Comm
pub mod Computer
pub mod Modules
pub mod CheckModules
pub mod Gercols
pub mod Collection
pub mod Software
pub mod Hardware
pub mod Collector
pub mod Installer
pub mod InstallCacic
pub mod Socket
pub mod Thread
pub mod Timer
pub mod Watch
pub mod Deploy
pub mod Service
mod Tests
