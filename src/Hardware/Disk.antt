-- ===== src/Hardware/Disk.antt =====
-- The disks and their partitions (`coletaLinuxIO` and `coletaGenericPartitionInfo` of
-- src/cacic_hardware.cpp).
pub mod Kept
pub mod Laws
use cacic_agente.Base.{
  Bool, true, false, not, ◌&&◌, String, ◌<>◌, ◌===◌, Option, none, some, List, [], ◌∷◌, ◌++◌, split,
  get_elem?, if◌then◌else◌, keep,
}
use cacic_agente.Json.{
  Json, null, str, arr, obj, Object, end, find, insert, touch, value, to_array, to_object,
  to_string, of_list, is_array, is_null, has,
}
use cacic_agente.Gercols.Diff.{assign}
use cacic_agente.Collection.{
  M, ◌>>=◌, pure, for_each, Exceptions, is_disabled, omits, put, lines_of,
}
use cacic_agente.Hardware.{has_id, children_of, put_from}

-- `isNull()` of a key of a `const` object: an absent key is undefined, not null.
abbrev pub is_explicit_null : Option Json → Bool
is_explicit_null (some null) = true
is_explicit_null _ = false

-- `a.toArray().first()` and `a.toArray().at(0)`
abbrev pub first_item : List Json → Option Json
first_item [] = none
first_item (v ∷ vs) = some v

abbrev pub text_of : Option Json → String
text_of none = ""
text_of (some v) = to_string v

-- A line of `df`: the fourth of its parts is the free space of the file system that the first names.
unfoldable pub read_df_line : String → Object → M Object
read_df_line line o = do
  name ← get_elem? (split b' ' line) 0
  if name === to_string (value "Caption" o)
      then (do
        space ← get_elem? (keep (λ s. not (s === " ")) (split b' ' line)) 3
        pure (insert "FreeSpace" (str space) (touch "Caption" o)))
      else pure (touch "Caption" o)

unfoldable pub caption_of : Object → Option Json
caption_of partition =
    if is_array (value "logicalname" partition)
    then first_item (to_array (value "logicalname" partition))
    else find "logicalname" partition

-- A partition of an extended one, as it is named
unfoldable pub extended_name : Object → String
extended_name x =
    to_string (value "description" x)
    <> (" "
        <> (if is_array (value "logicalname" x)
            then text_of (first_item (to_array (value "logicalname" x)))
            else to_string (value "logicalname" x)))

-- The list is read from "children" and written to "Children".
unfoldable pub add_extended : Json → Object → Object
unfolding extended_name
add_extended v o =
    insert "Children"
      (arr (of_list (to_array (value "children" o) ++ (str (extended_name (to_object v)) ∷ []))))
      (touch "children" o)

unfoldable pub add_all_extended : List Json → Object → Object
unfolding add_extended
add_all_extended [] o = o
add_all_extended (v ∷ vs) o = add_all_extended vs (add_extended v o)

-- `number` is `CCacic::convertDouble(v.toDouble(), 0)`.
module _ (console : String → String) (e : Exceptions) (number : Json → String) where
  unfoldable pub size_of : Object → String
  size_of partition =
      if is_explicit_null (find "size" partition)
      then number (value "capacity" partition) <> (" " <> to_string (value "units" partition))
      else number (value "size" partition)

  -- `coletaGenericPartitionInfo`
  unfoldable pub generic_partition : Object → Object → M Object
  unfolding size_of
  generic_partition partition o =
      let described =
        insert "Size" (str (size_of partition))
          (assign "Description" (find "description" partition) o) in
      if has "logicalname" partition
      then for_each (lines_of (console "df -h")) read_df_line
          (assign "Caption" (caption_of partition) described)
      else pure described

  -- A field takes what the configuration has, if it is not null.
  unfoldable pub put_configured : String → String → Object → Object → Object
  put_configured f k configuration o =
      if not (is_null (value k configuration)) && not (omits e "Win32_LogicalDisk" f)
      then insert f (value k configuration) o
      else o

  unfoldable pub put_media_type : Object → Object → Object → Object
  put_media_type disk configuration o =
      if omits e "Win32_LogicalDisk" "MediaType"
      then o
      else if is_null (value "label" configuration)
      then assign "MediaType" (find "description" disk) o
      else insert "MediaType" (value "label" configuration) o

  unfoldable pub plain_partition : Object → Object → Object → Object
  unfolding put_configured put_media_type
  plain_partition disk configuration o = put_media_type disk configuration (
      put_configured "MountOptions" "mount.options" configuration (
        put_configured "Created" "created" configuration
          (put_configured "Filesystem" "filesystem" configuration o)))

  unfoldable pub complete_partition : Object → Object → Object → Object
  unfolding plain_partition add_all_extended
  complete_partition disk partition o =
      if to_string (value "description" partition) === "Extended partition"
      then add_all_extended (children_of partition) o
      else plain_partition disk (to_object (value "configuration" partition)) o

  unfoldable pub add_partition : Object → Json → List Json → M (List Json)
  add_partition disk v partitions = do
    o ← generic_partition (to_object v) end
    pure (partitions ++ (obj (complete_partition disk (to_object v) o) ∷ []))

  unfoldable pub collect_partitions : Object → Object → M Object
  collect_partitions disk hardware =
      if is_disabled e "Win32_LogicalDisk" then pure hardware else (do
        partitions ←
            for_each (children_of disk) (add_partition disk)
              (to_array (value "Win32_LogicalDisk" hardware))
        pure (
            insert "Win32_LogicalDisk" (arr (of_list partitions))
              (touch "Win32_LogicalDisk" hardware)))

  unfoldable pub disk_device : Object → Object
  disk_device io = put e "Win32_DiskDrive" "Size" (str (number (value "size" io))) (
      put_from e "Win32_DiskDrive" "Name" "logicalname" io (
        put_from e "Win32_DiskDrive" "Model" "product" io
          (put_from e "Win32_DiskDrive" "Caption" "description" io end)))

  unfoldable pub optical_device : Object → Object
  optical_device io =
      put_from e "Win32_DiskDrive" "Name" "logicalname" io
        (put_from e "Win32_DiskDrive" "Caption" "description" io end)

  unfoldable pub add_device : List Json → Object → Object → Object
  add_device devices device hardware =
      if is_disabled e "Win32_DiskDrive"
      then hardware
      else insert "Win32_DiskDrive" (arr (of_list (devices ++ (obj device ∷ [])))) hardware

  -- `coletaLinuxIO`
  unfoldable pub collect_io : Object → Object → M Object
  collect_io io hardware =
      let devices = to_array (value "Win32_DiskDrive" hardware) in
      let touched = touch "Win32_DiskDrive" hardware in
      if has_id "cdrom" io
      then pure (add_device devices (optical_device io) touched)
      else if has_id "disk" io
      then (do
        listed ← collect_partitions io touched
        pure (add_device devices (disk_device io) listed))
      else pure (add_device devices end touched)
