-- ===== src/Hardware/Pci.antt =====
-- The devices of the bus (`coletaLinuxPci` of src/cacic_hardware.cpp).
pub mod Kept
use cacic_agente.Base.{
  Bool, true, false, not, ◌&&◌, ◌||◌, String, List, [], ◌∷◌, ◌++◌, if◌then◌else◌, contains,
}
use cacic_agente.Json.{
  Json, str, arr, obj, Object, end, find, insert, touch, value, to_array, to_object, to_string,
  of_list,
}
use cacic_agente.Gercols.Diff.{assign}
use cacic_agente.Collection.{Exceptions, is_disabled, put}
use cacic_agente.Hardware.{has_id, put_from}

abbrev pub adapters : String
adapters = "NetworkAdapterConfiguration"

-- A field of a network card takes what a key has.
abbrev pub copy : String → String → Object → Object → Object
copy f k pci o = assign f (find k pci) o

unfoldable pub wireless_card : Object → Object
wireless_card pci = insert "Firmware" (value "firmware" (to_object (value "configuration" pci))) (
    copy "Serial" "serial" pci (
      copy "Logicalname" "logicalname" pci (
        copy "Manufacturer" "vendor" pci
          (copy "Product" "product" pci (copy "Description" "description" pci end)))))

abbrev pub is_wireless : Object → Bool
is_wireless pci =
    has_id "network" pci
    && (contains (to_string (value "description" pci)) "Wireless"
        || contains (to_string (value "product" pci)) "Wireless")

-- The object is written only if a card is in the list.
unfoldable pub keep_network : List Json → Object → Object
keep_network [] hardware = hardware
keep_network (v ∷ vs) hardware = insert adapters (arr (of_list (v ∷ vs))) hardware

-- `number` is `CCacic::convertDouble(v.toDouble(), 0)`.
module _ (e : Exceptions) (number : Json → String) where
  unfoldable pub ethernet_card : Object → Object
  ethernet_card pci = insert "Capacity" (str (number (value "capacity" pci))) (
      copy "Serial" "serial" pci (
        copy "LogicalName" "logicalname" pci (
          copy "Manufacturer" "vendor" pci
            (copy "Product" "product" pci (copy "Description" "description" pci end)))))

  unfoldable pub described : String → Object → Object
  described c pci =
      put_from e c "Manufacturer" "vendor" pci
        (put_from e c "Product" "product" pci (put_from e c "Description" "description" pci end))

  unfoldable pub display : Object → Object
  unfolding described
  display pci = put e "Win32_PCMCIAController" "Clock" (str (number (value "clock" pci))) (
      put e "Win32_PCMCIAController" "Width" (str (number (value "width" pci)))
        (described "Win32_PCMCIAController" pci))

  -- What the tests do to the other classes and to the list of the network cards
  unfoldable pub read_device : Object → List Json → Object → Object
  unfolding keep_network
  read_device pci network hardware =
      if has_id "multimedia" pci && not (is_disabled e "Multimedia")
      then keep_network network (insert "Multimedia" (obj (described "Multimedia" pci)) hardware)
      else if is_wireless pci
      then keep_network (network ++ (obj (wireless_card pci) ∷ [])) hardware
      else if has_id "network" pci
      then keep_network (network ++ (obj (ethernet_card pci) ∷ [])) hardware
      else if has_id "display" pci && not (is_disabled e "Win32_PCMCIAController")
      then keep_network network (insert "Win32_PCMCIAController" (obj (display pci)) hardware)
      else keep_network network hardware

  -- `coletaLinuxPci`
  unfoldable pub collect_pci : Object → Object → Object
  collect_pci pci hardware =
      read_device pci (to_array (value adapters hardware)) (touch adapters hardware)
