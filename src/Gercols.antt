-- ===== src/Gercols.antt =====
-- `Gercols` (gercols/gercols.cpp) and `CColeta` (src/ccoleta.cpp): the collection of a computer's
-- data, its comparison with the one before, and what is noted for the daemon.
pub mod Diff
pub mod Laws
use cacic_agente.Base.{
  ℕ, zero, suc, ◌+◌, Bool, true, false, String, ◌<>◌, ◌===◌, Option, none, some, List, [], ◌∷◌,
  if◌then◌else◌, ◌&&◌, not,
}
use cacic_agente.Json.{
  Json, obj, arr, Items, Object, end, field, insert, find, value, to_array, of_list, is_null,
  is_empty_object, flag,
}
use cacic_agente.Log.{Level}
use cacic_agente.Machine.{Machine}
use cacic_agente.World.{World, M, ok, exit, ◌>>=◌, ◌>>◌, pure, write_log, exists}
use cacic_agente.Cacic.{get_json_from_file, set_json_to_file, delete_file, set_values}
use cacic_agente.Gercols.Diff.{assign, differs}

-- `CColeta::waitToCollect`: the seconds slept, with the rounds left until `timeout` is 30, from
-- whether both collections are over after so many seconds.
unfoldable pub wait_from : ℕ → ℕ → (ℕ → Bool) → ℕ
wait_from zero timeout finished = timeout
wait_from (suc n) timeout finished =
    let rest = wait_from n (timeout + 1) finished in if finished timeout then timeout else rest

unfoldable pub wait_to_collect : (ℕ → Bool) → ℕ
wait_to_collect = wait_from 30 0

-- `retorno`, `diferencaColeta` and `coletaDiff` of `verificaColeta`
pub record Compared : Type 0 where
  pub changed : Bool
  pub difference : Object
  pub report : Object

abbrev report_key : Bool → String
report_key first = if first then "coletasRetiradas" else "coletasInseridas"

-- `same` is the equality of two `QVariant`s, the second of a value that may be undefined.
module _ (same : Json → Option Json → Bool) where
  abbrev add_difference : Bool → String → Option (Option Json) → Compared → Compared
  add_difference first k none c = c
  add_difference first k (some r) c =
      let d = assign k r c.difference in
      record { changed = true; difference = d; report = insert (report_key first) (obj d) c.report }

  -- One pass over the keys of the first collection.
  unfoldable pub compare_pass : Bool → Object → Object → Compared → Compared
  compare_pass first end second c = c
  compare_pass first (field k v rest) second c = compare_pass first rest second (
      if k === "computador"
      then c
      else if is_null (value k second)
      then c
      else add_difference first k (differs same v (find k second)) c)

  abbrev unchanged : Compared
  unchanged = record { changed = false; difference = end; report = end }

  -- The loop of `Gercols::verificaColeta`: the old collection against the new one, and the other
  -- way round. The differences of the first pass are still there in the second.
  unfoldable pub compare_collections : Object → Object → Compared
  unfolding compare_pass
  compare_collections old new = compare_pass false new old (compare_pass true old new unchanged)

-- `CColeta::toJsonObject`, from what the collections of hardware and software have gathered.
abbrev pub collection_of : Object → Object → Object → Object
collection_of computer hardware software = insert "software" (obj software) (
    insert "hardware"
      (obj (
        insert "NetworkAdapterConfiguration"
          (arr (of_list (to_array (value "networkDevices" computer)))) hardware))
      (insert "computador" (obj computer) end))

module _ (m : Machine) (folder : String) (same : Json → Option Json → Bool) where
  drop_report : Bool → M m Bool
  unfolding delete_file
  drop_report there = if there then delete_file m (folder <> "/coletaDiff.json") else pure true

  save_report : Compared → M m Bool
  unfolding drop_report set_json_to_file
  save_report c = if is_empty_object c.difference then pure c.changed else (do
    there ← exists m (folder <> "/coletaDiff.json")
    _ ← drop_report there
    _ ←
        set_json_to_file m (insert "computador" (obj m.computer) c.report)
          (folder <> "/coletaDiff.json")
    pure c.changed)

  -- `Gercols::verificaColeta`
  unfoldable pub verify_collection : Object → Object → M m Bool
  unfolding save_report compare_collections
  verify_collection old new = save_report (compare_collections same old new)

  has_changed : Object → Object → M m Bool
  unfolding verify_collection
  has_changed old new = if is_empty_object old then pure true else verify_collection old new

  note_change : Bool → M m (Unit {0})
  unfolding set_values
  note_change changed = do
    set_values m (("enviaColeta", flag changed) ∷ [])
    write_log m Level.info (
        if changed
        then "Novas informações prontas para o envio ao gerente."
        else "Coleta sem alterações.")

  -- `Gercols::run` on what was collected
  unfoldable pub run : Object → M m (Unit {0})
  unfolding has_changed note_change set_json_to_file get_json_from_file
  run new = if is_empty_object new then write_log m Level.error "Falha ao realizar coleta." else (do
    old ← get_json_from_file m (folder <> "/coleta.json")
    _ ← set_json_to_file m new (folder <> "/coleta.json")
    changed ← has_changed old new
    note_change changed)
