-- ===== src/Tests/Computer.antt =====
-- What the agent tells of a computer, at concrete values.
use cacic_agente.Base.{
  ◌≡◌, refl, pos, negsuc, true, false, String, ◌===◌, some, [], ◌∷◌, if◌then◌else◌, split, contains,
  contains_insensitive,
}
use cacic_agente.Json.{null, is_empty_object}
use cacic_agente.World.{Ensures}
use cacic_agente.Computer.{Sources, Computer, computer_json, devices, is_nil}
use cacic_agente.Computer.Laws.{Told, computer_json-Told}
use cacic_agente.Computer.Os.{collect_id, collect_version, quoted_name}
use cacic_agente.Computer.Windows.{windows_name, version_name, xp}
use cacic_agente.Tests.Memory.{memory}
use cacic_agente.Tests.Setup.{installed}

abbrev console : String → String
console c = if c === "who" then "ana tty1" else ""

abbrev sources : Sources
sources = record {
  console = console;
  whole = λ s. pos 0;
  node_name = "node";
  interfaces =
      record {
        name = "eth0";
        hardware = "00:11";
        loopback = false;
        point_to_point = false;
        running = true;
        addresses = record { ip = "10.0.0.2"; netmask = "255.0.0.0"; scoped = false } ∷ [];
      }
      ∷ [];
  version = "3.1.15";
}

abbrev unknown : Computer
unknown = record { os = record { name = ""; id = negsuc 0 }; network = []; user = ""; name = "" }

computer_json-Told_example : Ensures (computer_json memory sources unknown installed) (λ (o, c) v.
    (v ≡ installed)
    × (is_empty_object o ≡ is_nil (devices sources.interfaces))
    × (is_nil (devices sources.interfaces) ≡ false → Told sources unknown o))
unfolding split
computer_json-Told_example = computer_json-Told memory sources unknown installed refl

ubuntu_name : quoted_name "\"Ubuntu 14.04\"\n" ≡ "Ubuntu 14.04"
unfolding quoted_name
ubuntu_name = refl

-- A name without quotes loses its first letter.
bare_name : quoted_name "Debian" ≡ "ebian"
unfolding quoted_name
bare_name = refl

ubuntu_id : collect_id ("DISTRIB_ID=Ubuntu" ∷ "DISTRIB_DESCRIPTION=\"Ubuntu 14.04\"" ∷ []) ≡ pos 2
unfolding collect_id contains contains_insensitive
ubuntu_id = refl

ubuntu_version : collect_version ("VERSION=\"14.04, Trusty\"" ∷ []) ≡ some "14.04"
unfolding collect_version contains split
ubuntu_version = refl

-- The name that the library of Windows gives is not used.
no_windows_name : windows_name null "Windows 7" ≡ ""
unfolding windows_name
no_windows_name = refl

xp_version : version_name xp ≡ "Windows 2000"
unfolding version_name
xp_version = refl
