-- ===== src/Hardware/Disk/Kept.antt =====
-- The disks are not collected if they are not to be, and leave the other classes as they are.
use cacic_agente.Base.{refl, String, List, Bool-cases, inl, inr}
use cacic_agente.Json.{Json, Object, touch, value, to_array}
use cacic_agente.Collection.{for_each, Exceptions, is_disabled}
use cacic_agente.Collection.Laws.{>>=-Holds, >>=-Holds_any}
use cacic_agente.Hardware.{has_id, children_of}
use cacic_agente.Hardware.Kept.{Keeps, Respects, insert_whole, touch-Respects}
use cacic_agente.Hardware.Disk.{collect_partitions, add_partition, add_device, collect_io}

module _ (console : String → String) (e : Exceptions) (number : Json → String) where
  add_device-Respects :
      (vs : List Json) (o h : Object)
      → Respects e h
      → Respects e (add_device console e number vs o h)
  unfolding add_device
  add_device-Respects vs o h r = elim (Bool-cases (is_disabled e "Win32_DiskDrive")) [
    | inl off ↦ rw off r
    | inr on ↦ rw on (insert_whole e "Win32_DiskDrive" _ h refl on r)
  ]

  collect_partitions-Respects :
      (disk h : Object) → Respects e h → Keeps e (collect_partitions console e number disk h)
  unfolding collect_partitions
  collect_partitions-Respects disk h r = elim (Bool-cases (is_disabled e "Win32_LogicalDisk")) [
    | inl off ↦ rw off r
    | inr on ↦ rw on (
        >>=-Holds_any (Respects e)
          (for_each (children_of disk) (add_partition console e number disk)
            (to_array (value "Win32_LogicalDisk" h)))
          _
          (λ partitions.
            insert_whole e "Win32_LogicalDisk" _ _ refl on
              (touch-Respects e "Win32_LogicalDisk" h refl r)))
  ]

  pub collect_io-Respects :
      (io h : Object) → Respects e h → Keeps e (collect_io console e number io h)
  unfolding collect_io
  collect_io-Respects io h r =
      let touched = touch-Respects e "Win32_DiskDrive" h refl r in
      elim (Bool-cases (has_id "cdrom" io)) [
        | inl optical ↦ rw optical (add_device-Respects _ _ _ touched)
        | inr p ↦ elim (Bool-cases (has_id "disk" io)) [
          | inl disk ↦
              rw (p, disk)
                (>>=-Holds (Respects e) (Respects e)
                  (collect_partitions console e number io (touch "Win32_DiskDrive" h)) _
                  (collect_partitions-Respects io _ touched)
                  (λ listed k. add_device-Respects _ _ listed k))
          | inr q ↦ rw (p, q) (add_device-Respects _ _ _ touched)
        ]
      ]
