-- ===== src/Computer/Laws.antt =====
-- What the agent tells of the computer.
use cacic_agente.Base.{◌≡◌, refl, false, map, is_empty, arith, Bool-cases, inl, inr}
use cacic_agente.Json.{Object, str, obj, arr, of_list, value, is_empty_object, insert, find}
use cacic_agente.Machine.{Machine}
use cacic_agente.World.{World, Ensures}
use cacic_agente.Computer.Os.{to_json_object}
use cacic_agente.Computer.{
  Sources, Computer, computer_json, collect_data, collect_user, describe, with_devices, devices,
  first_column, is_nil,
}

-- What is told
abbrev pub Told : Sources → Computer → Object → Type 0
Told s old o =
    (value "operatingSystem" o ≡ obj (to_json_object s.console s.whole old.os).0)
    × (value "networkDevices" o ≡ arr (of_list (map obj (devices s.interfaces))))
    × (value "nmComputador" o ≡ str s.node_name)
    × (value "usuario" o ≡ str (first_column (s.console "who")))

-- While somebody is logged in, the description of the computer is made without a change of the
-- world. It is empty exactly if no interface of the network is shown; else it tells the system, the
-- devices, the name and the user, also if nothing is known of the system.
pub computer_json-Told :
    (m : Machine) (s : Sources) (old : Computer) (w : World m)
    → is_empty (first_column (s.console "who")) ≡ false
    → Ensures (computer_json m s old w) (λ (o, c) v.
      (v ≡ w)
      × (is_empty_object o ≡ is_nil (devices s.interfaces))
      × (is_nil (devices s.interfaces) ≡ false → Told s old o))
unfolding computer_json collect_data collect_user describe with_devices insert find
computer_json-Told m s old w known = elim (Bool-cases (is_nil (devices s.interfaces))) [
  | inl alone ↦ rw (known, alone) (refl, refl, λ h. absurd (ground (arith, h)))
  | inr shown ↦ rw (known, shown) (refl, refl, λ _. (refl, refl, refl, refl))
]
