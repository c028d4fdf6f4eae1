-- ===== src/Computer.antt =====
-- `CACIC_Computer` (src/cacic_computer.cpp) on Linux: what the agent tells of the computer in each
-- message to the manager, and in a collection.
pub mod Os
pub mod Windows
pub mod Laws
use cacic_agente.Base.{
  Bool, true, false, not, ◌&&◌, String, ◌<>◌, List, [], ◌∷◌, map, ℤ, split, get_elem?,
  if◌then◌else◌, is_empty, Option, none, some, keep,
}
use cacic_agente.Json.{
  Json, null, bool, str, arr, obj, Object, end, insert, value, of_list, to_object, to_string,
  is_null, Variant, invalid, flag, text, variant_text,
}
use cacic_agente.Machine.{Machine}
use cacic_agente.World.{World, M, ok, ◌>>=◌, pure}
use cacic_agente.Cacic.{get_json_from_file, get_value}
use cacic_agente.Computer.Os.{OperatingSystem, to_json_object}

-- An address of a network interface; `scoped` says that it has a scope, as a local one of IPv6 has.
pub record Address : Type 0 where
  pub ip : String
  pub netmask : String
  pub scoped : Bool

pub record Interface : Type 0 where
  pub name : String
  pub hardware : String
  pub loopback : Bool
  pub point_to_point : Bool
  pub running : Bool
  pub addresses : List Address

abbrev pub is_shown : Interface → Bool
is_shown i = not i.loopback && (not i.point_to_point && i.running)

abbrev pub add_address : Address → Object → Object
add_address a o =
    if a.scoped
    then insert "netmask_ipv6" (str a.netmask) (insert "ipv6" (str a.ip) o)
    else insert "netmask_ipv4" (str a.netmask) (insert "ipv4" (str a.ip) o)

abbrev pub add_addresses : List Address → Object → Object
add_addresses [] o = o
add_addresses (a ∷ more) o = add_addresses more (add_address a o)

abbrev pub device_of : Interface → Object
device_of i =
    add_addresses i.addresses (insert "mac" (str i.hardware) (insert "nome" (str i.name) end))

-- `networkInterfacesRunning`
unfoldable pub devices : List Interface → List Object
devices found = map device_of (keep is_shown found)

-- What the system gives: what a command prints, `toDouble` cut to an `int`, the name of the node, the
-- interfaces and the version of the agent.
pub record Sources : Type 0 where
  pub console : String → String
  pub whole : String → ℤ
  pub node_name : String
  pub interfaces : List Interface
  pub version : String

pub record Computer : Type 0 where
  pub os : OperatingSystem
  pub network : List Object
  pub user : String
  pub name : String

abbrev pub first_column : String → String
first_column s = elim (get_elem? (split b' ' s) 0) [ none ↦ "" | some t ↦ t ]

abbrev pub is_nil : List Object → Bool
is_nil [] = true
is_nil (o ∷ os) = false

abbrev pub json_of : Variant → Json
json_of invalid = null
json_of (flag b) = bool b
json_of (text s) = str s

module _ (m : Machine) (s : Sources) where
  -- The user of the last collection, if it has one
  unfoldable pub last_user : String → M m String
  last_user user = do
    folder ← get_value m "mainFolder"
    old ← get_json_from_file m (variant_text folder <> "/coleta.json")
    let old_user = to_string (value "usuario" (to_object (value "computador" old)))
    pure (if is_empty old_user then user else old_user)

  -- `pegarUsu`
  unfoldable pub collect_user : M m String
  unfolding last_user
  collect_user =
      let user = first_column (s.console "who") in
      if is_empty user then last_user user else pure user

  -- `coletaDados`
  unfoldable pub collect_data : Computer → M m Computer
  unfolding collect_user devices
  collect_data c = do
    user ← collect_user
    pure (record c { name = s.node_name; network = devices s.interfaces; user = user })

  abbrev pub with_os : Computer → Object → Object
  with_os c os = insert "operatingSystem" (obj os) (insert "usuario" (str c.user) end)

  unfoldable pub with_devices : Computer → Json → Object → Object
  with_devices c module_version o = insert "versaoGercols" module_version (
      insert "versaoAgente" (str s.version) (
        insert "nmComputador" (str c.name)
          (insert "networkDevices" (arr (of_list (map obj c.network))) o)))

  unfoldable pub describe : Computer → Object → M m Object
  unfolding with_devices
  describe c o =
      if is_null (value "operatingSystem" o)
      then pure end
      else if is_nil c.network
      then pure end
      else (do
        module_version ← get_value m "versao_gercols"
        pure (with_devices c (json_of module_version) o))

  -- `toJsonObject`, with the computer after it
  unfoldable pub computer_json : Computer → M m (Object × Computer)
  unfolding collect_data describe
  computer_json old = do
    c ← collect_data old
    let (os_json, os) = to_json_object s.console s.whole c.os
    o ← describe c (with_os c os_json)
    pure (o, record c { os = os })
