-- ===== src/Hardware/Pci/Kept.antt =====
-- The cards lack what is not to be collected.
use cacic_agente.Base.{refl, not, ◌&&◌, String, List, [], ◌∷◌, Bool-cases, inl, inr, arith}
use cacic_agente.Json.{Json, Object, end}
use cacic_agente.Collection.{Exceptions, is_disabled}
use cacic_agente.Hardware.{has_id}
use cacic_agente.Hardware.Kept.{
  end-Lacks, Lacks, Respects, put-Lacks, put_from-Lacks, insert_class, insert_other, touch-Respects,
}
use cacic_agente.Hardware.Pci.{
  keep_network, described, display, read_device, collect_pci, is_wireless, adapters,
}

module _ (e : Exceptions) (number : Json → String) where
  described-Lacks : (c : String) (pci : Object) → Lacks e c (described e number c pci)
  unfolding described
  described-Lacks c pci = put_from-Lacks e c "Manufacturer" "vendor" pci _ (
      put_from-Lacks e c "Product" "product" pci _
        (put_from-Lacks e c "Description" "description" pci end (end-Lacks e c)))

  display-Lacks : (pci : Object) → Lacks e "Win32_PCMCIAController" (display e number pci)
  unfolding display
  display-Lacks pci = put-Lacks e "Win32_PCMCIAController" "Clock" _ _ (
      put-Lacks e "Win32_PCMCIAController" "Width" _ _
        (described-Lacks "Win32_PCMCIAController" pci))

  keep_network-Respects :
      (vs : List Json) (h : Object) → Respects e h → Respects e (keep_network vs h)
  unfolding keep_network
  keep_network-Respects [] h r = r
  keep_network-Respects (v ∷ vs) h r = insert_other e adapters _ h refl refl r

  read_device-Respects :
      (pci : Object) (vs : List Json) (h : Object)
      → Respects e h
      → Respects e (read_device e number pci vs h)
  unfolding read_device
  read_device-Respects pci vs h r =
      elim (Bool-cases (has_id "multimedia" pci && not (is_disabled e "Multimedia"))) [
        | inl sound ↦ rw sound (
            keep_network-Respects vs _ (
              insert_class e "Multimedia" _ h (ground (arith, sound))
                (described-Lacks "Multimedia" pci) r))
        | inr p ↦ elim (Bool-cases (is_wireless pci)) [
          | inl wireless ↦ rw (p, wireless) (keep_network-Respects _ h r)
          | inr q ↦ elim (Bool-cases (has_id "network" pci)) [
            | inl wired ↦ rw (p, q, wired) (keep_network-Respects _ h r)
            | inr s ↦
                elim (Bool-cases
                  (has_id "display" pci && not (is_disabled e "Win32_PCMCIAController"))) [
                    | inl shown ↦
                        rw (p, q, s, shown)
                          (keep_network-Respects vs _ (
                            insert_class e "Win32_PCMCIAController" _ h (ground (arith, shown))
                              (display-Lacks pci) r))
                    | inr none_of_them ↦ rw (p, q, s, none_of_them) (keep_network-Respects vs h r)
                  ]
          ]
        ]
      ]

  pub collect_pci-Respects :
      (pci h : Object) → Respects e h → Respects e (collect_pci e number pci h)
  unfolding collect_pci
  collect_pci-Respects pci h r = read_device-Respects pci _ _ (touch-Respects e adapters h refl r)
