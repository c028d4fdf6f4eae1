-- ===== src/Hardware/Windows/Classes.antt =====
-- `HardwareClasses` (src/hardwareclasses.cpp): the classes of WMI that are collected on Windows.
use mathlib.Core.List.{foldl}
use cacic_agente.Base.{String, ◌===◌, Option, none, some, List, [], ◌∷◌, if◌then◌else◌}
use cacic_agente.Collection.{is_nil}

-- `QHash<QString, QStringList>`, in the order of its keys
abbrev pub ClassTable : Type 0
ClassTable = List (String × List String)

-- `hash[name] = fields`
abbrev pub add_class : String → List String → ClassTable → ClassTable
add_class name fields [] = (name, fields) ∷ []
add_class name fields ((n, fs) ∷ cs) =
    if n === name then (n, fields) ∷ cs else (n, fs) ∷ add_class name fields cs

abbrev pub fields_of : String → ClassTable → Option (List String)
fields_of name [] = none
fields_of name ((n, fs) ∷ cs) = if n === name then some fs else fields_of name cs

-- `hash.remove(name)`
abbrev pub remove_class : String → ClassTable → ClassTable
remove_class name [] = []
remove_class name ((n, fs) ∷ cs) =
    let rest = remove_class name cs in if n === name then rest else (n, fs) ∷ rest

-- `list.removeOne(f)`
abbrev pub remove_one : String → List String → List String
remove_one f [] = []
remove_one f (g ∷ gs) = if g === f then gs else g ∷ remove_one f gs

-- The list that `hash[name]` reads; a key that is absent comes to be there.
abbrev pub or_no_fields : Option (List String) → List String
or_no_fields none = []
or_no_fields (some fs) = fs

-- `foreach(attr, attrs) hash[name].removeOne(attr)`
abbrev pub remove_fields : String → List String → ClassTable → ClassTable
remove_fields name [] cs = cs
remove_fields name (f ∷ fs) cs =
    remove_fields name fs (add_class name (remove_one f (or_no_fields (fields_of name cs))) cs)

-- What an exception leaves of the classes: the fields that are removed are those of the class itself.
unfoldable pub except : String → List String → ClassTable → ClassTable
except name omitted cs =
    if is_nil omitted
    then remove_class name cs
    else let fields = or_no_fields (fields_of name cs) in
      remove_fields name fields (add_class name fields cs)

abbrev pub except_all : ClassTable → ClassTable → ClassTable
except_all [] cs = cs
except_all ((name, omitted) ∷ es) cs = except_all es (except name omitted cs)

-- The classes and their fields
abbrev pub all_classes : ClassTable
all_classes =
    (
      "Win32_ComputerSystem",
      "Caption" ∷ "Description" ∷ "Domain" ∷ "Manufacturer" ∷ "Model" ∷ "Name" ∷ "PrimaryOwnerName"
          ∷ "TotalPhysicalMemory" ∷ "Workgroup" ∷ [],
    )
    ∷ (
      "Win32_PortableBattery",
      "Caption" ∷ "Description" ∷ "DeviceID" ∷ "EstimatedChargeRemaining" ∷ "ExpectedLife"
          ∷ "FullChargeCapacity" ∷ "Name" ∷ "Status" ∷ "Location" ∷ [],
    )
    ∷ (
      "Win32_Bios",
      "Manufacturer" ∷ "SMBIOSBIOSVersion" ∷ "BIOSVersion" ∷ "Version" ∷ "SerialNumber"
          ∷ "ReleaseDate" ∷ [],
    )
    ∷ ("Win32_Baseboard", "Manufacturer" ∷ "Model" ∷ "SerialNumber" ∷ [])
    ∷ (
      "Win32_SystemEnclosure",
      "Manufacturer" ∷ "ChassisTypes" ∷ "SerialNumber" ∷ "SMBIOSAssetTag" ∷ [],
    )
    ∷ ("Win32_FloppyDrive", "Manufacturer" ∷ "Caption" ∷ "Description" ∷ "Name" ∷ [])
    ∷ (
      "Win32_DiskDrive",
      "Manufacturer" ∷ "Caption" ∷ "Description" ∷ "Name" ∷ "MediaType" ∷ "Size" ∷ "Model" ∷ [],
    )
    ∷ (
      "Win32_CDROMDrive",
      "Manufacturer" ∷ "Caption" ∷ "Description" ∷ "MediaType" ∷ "Name" ∷ "Size" ∷ [],
    )
    ∷ ("Win32_FloppyController", "Manufacturer" ∷ "Caption" ∷ "Description" ∷ "Name" ∷ [])
    ∷ (
      "Win32_MemoryDevice",
      "Caption" ∷ "Description" ∷ "Name" ∷ "BlockSize" ∷ "DeviceID" ∷ "NumberOfBlocks" ∷ "Status"
          ∷ [],
    )
    ∷ (
      "Win32_SMBIOSMemory",
      "Caption" ∷ "Description" ∷ "Name" ∷ "BlockSize" ∷ "DeviceID" ∷ "NumberOfBlocks" ∷ "Status"
          ∷ [],
    )
    ∷ (
      "Win32_SCSIController",
      "Manufacturer" ∷ "Caption" ∷ "Description" ∷ "Name" ∷ "HardwareVersion" ∷ [],
    )
    ∷ ("Win32_InfraredDevice", "Manufacturer" ∷ "Caption" ∷ "Description" ∷ "Name" ∷ [])
    ∷ ("Win32_USBController", "Manufacturer" ∷ "Caption" ∷ "Description" ∷ "Name" ∷ [])
    ∷ ("Win32_PCMCIAController", "Manufacturer" ∷ "Caption" ∷ "Description" ∷ "Name" ∷ [])
    ∷ (
      "Win32_VideoController",
      "VideoProcessor" ∷ "AdapterRAM" ∷ "Description" ∷ "Name" ∷ "CurrentHorizontalResolution"
          ∷ "CurrentVerticalResolution" ∷ "Caption" ∷ "AcceleratorCapabilities" ∷ [],
    )
    ∷ (
      "Win32_DesktopMonitor",
      "MonitorManufacturer" ∷ "Caption" ∷ "Description" ∷ "MonitorType" ∷ "Name" ∷ [],
    )
    ∷ (
      "Win32_Printer",
      "Name" ∷ "DriverName" ∷ "PortName" ∷ "ServerName" ∷ "ShareName" ∷ "HorizontalResolution"
          ∷ "VerticalResolution" ∷ "Comment" ∷ "Shared" ∷ "Network" ∷ [],
    )
    ∷ (
      "Win32_PortConnector",
      "ExternalReferenceDesignator" ∷ "PortType" ∷ "ConnectorType" ∷ "Name" ∷ "Caption"
          ∷ "Manufacturer" ∷ [],
    )
    ∷ ("Win32_SerialPort", "Name" ∷ "Caption" ∷ "Description" ∷ "StatusInfo" ∷ [])
    ∷ (
      "Win32_Processor",
      "MaxClockSpeed" ∷ "Name" ∷ "Architecture" ∷ "NumberOfCores" ∷ "SocketDesignation"
          ∷ "Manufacturer" ∷ "Architecture" ∷ "NumberOfCores" ∷ "NumberOfLogicalProcessors"
          ∷ "CurrentClockSpeed" ∷ "MaxClockSpeed" ∷ "L2CacheSize" ∷ "AddressWidth" ∷ "DataWidth"
          ∷ "VoltageCaps" ∷ "CpuStatus" ∷ "ProcessorId" ∷ "UniqueId" ∷ "AddressWidth" ∷ "Caption"
          ∷ "Family" ∷ "Level" ∷ [],
    )
    ∷ (
      "Win32_OperatingSystem",
      "Name" ∷ "Version" ∷ "CSDVersion" ∷ "Description" ∷ "InstallDate" ∷ "Organization"
          ∷ "RegisteredUser" ∷ "SerialNumber" ∷ "Caption" ∷ [],
    )
    ∷ (
      "Win32_SystemSlot",
      "Name" ∷ "Description" ∷ "SlotDesignation" ∷ "CurrentUsage" ∷ "Status" ∷ "Shared" ∷ [],
    )
    ∷ (
      "Win32_LogicalDisk",
      "Caption" ∷ "DriveType" ∷ "Filesystem" ∷ "VolumeName" ∷ "ProviderName" ∷ "Filesystem"
          ∷ "VolumeName" ∷ "Size" ∷ "FreeSpace" ∷ "MediaType" ∷ [],
    )
    ∷ (
      "Win32_PhysicalMemory",
      "Caption" ∷ "Description" ∷ "BankLabel" ∷ "DeviceLocator" ∷ "Capacity" ∷ "Speed"
          ∷ "MemoryType" ∷ [],
    )
    ∷ ("Win32_Keyboard", "Caption" ∷ "Description" ∷ "Name" ∷ "Layout" ∷ [])
    ∷ (
      "Win32_PointingDevice",
      "Manufacturer" ∷ "Caption" ∷ "Description" ∷ "PointingType" ∷ "DeviceInterface" ∷ [],
    )
    ∷ []

unfoldable pub known_classes : ClassTable
known_classes = foldl (λ cs (n, fs). add_class n fs cs) [] all_classes

-- `init`, with the exceptions
unfoldable pub init : ClassTable → ClassTable
unfolding except
init exceptions = except_all exceptions known_classes
