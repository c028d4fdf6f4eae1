-- ===== src/Computer/Windows.antt =====
-- `OperatingSystem` (src/operatingsystem.cpp) on Windows: the name and the version.
use cacic_agente.Base.{String, none, some, if◌then◌else◌, is_empty, trimmed}
use cacic_agente.Json.{Json, value, to_object, to_string, is_null}
use cacic_agente.Computer.Os.{index_of, left}

-- `QSysInfo::WindowsVersion`, of which the agent names eight
pub data WindowsVersion : Type 0 where
  nt : WindowsVersion
  windows_2000 : WindowsVersion
  xp : WindowsVersion
  server_2003 : WindowsVersion
  vista : WindowsVersion
  windows_7 : WindowsVersion
  windows_8 : WindowsVersion
  windows_8_1 : WindowsVersion
  other_windows : WindowsVersion

-- `coletaVersaoOsEmString`
unfoldable pub version_name : WindowsVersion → String
version_name nt = "Windows NT"
version_name windows_2000 = "Windows 2000"
version_name xp = "Windows 2000"
version_name server_2003 = "Windows Server 2003"
version_name vista = "Windows Vista"
version_name windows_7 = "Windows 7"
version_name windows_8 = "Windows 8"
version_name windows_8_1 = "Windows 8.1"
version_name other_windows = ""

abbrev pub before_bar : String → String
before_bar s = elim (index_of b'|' s) [ none ↦ s | some i ↦ left i s ]

-- `coletaNomeOs`: from what WMI answers, or from what the library of Windows names
unfoldable pub windows_name : Json → String → String
windows_name answer named =
    if is_null answer
    then (if is_empty named then trimmed named else "")
    else trimmed (before_bar (to_string (value "Name" (to_object answer))))
