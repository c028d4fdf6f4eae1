-- ===== src/Gercols/Laws.antt =====
-- What a collection notes for the daemon, and that a collection does not differ from itself.
pub mod Same
use cacic_agente.Base.{
  ℕ, zero, suc, ◌+◌, ◌≤◌, ◌<◌, ◌≡◌, refl, ◌⊎◌, inl, inr, Bool, true, false, ◌||◌, String, ◌<>◌,
  Option, none, some, arith, Bool-cases, if◌then◌else◌, ◌∙◌, ap,
}
use cacic_agente.Json.{Json, obj, insert, Object, is_empty_object, flag, variant_bool}
use cacic_agente.Machine.{Machine}
use cacic_agente.World.{
  World, M, Result, ◌>>=◌, pure, ok, bind_result, exists, Ensures, store, lookup,
}
use cacic_agente.World.Laws.{Ensures-bind, Ensures-mono}
use cacic_agente.Cacic.{get_json_from_file, set_json_to_file, delete_file, set_values}
use cacic_agente.Cacic.Laws.{lookup-store}
use cacic_agente.Timer.Collect.Policy.{is_due}
use cacic_agente.Gercols.{
  wait_from, wait_to_collect, compare_collections, Compared, save_report, drop_report,
  verify_collection, has_changed, note_change, run,
}

wait_from_bounds :
    (n timeout : ℕ) (finished : ℕ → Bool)
    → (wait_from n timeout finished ≤ timeout + n)
      × ((finished (wait_from n timeout finished) ≡ true)
          ⊎ (wait_from n timeout finished ≡ timeout + n))
unfolding wait_from
wait_from_bounds zero timeout finished = (omega arith, inr (omega arith))
wait_from_bounds (suc n) timeout finished = elim (Bool-cases (finished timeout)) [
  | inl over ↦ rw (over, wait_from) (omega arith, inl over)
  | inr on ↦ rw (on, wait_from) (ground (arith, wait_from_bounds n (timeout + 1) finished))
]

-- The wait for the two collections ends within 30 seconds, and before that only if both are over.
pub wait_to_collect_bounds :
    (finished : ℕ → Bool)
    → (wait_to_collect finished ≤ 30)
      × ((finished (wait_to_collect finished) ≡ true) ⊎ (wait_to_collect finished ≡ 30))
unfolding wait_to_collect
wait_to_collect_bounds finished = wait_from_bounds 30 0 finished

module _ (m : Machine) (folder : String) (same : Json → Option Json → Bool) where
  -- Only the disk and the log differ.
  abbrev Quiet : World m → World m → Type 0
  Quiet w v = (v.registry ≡ w.registry) × (v.sent ≡ w.sent)

  set_json-Quiet :
      (o : Object) (p : String) (w : World m)
      → Ensures (set_json_to_file m o p w) (λ _ v. Quiet w v)
  unfolding set_json_to_file
  set_json-Quiet o p w = ground arith

  drop_report-Quiet :
      (there : Bool) (w : World m) → Ensures (drop_report m folder same there w) (λ _ v. Quiet w v)
  unfolding drop_report delete_file
  drop_report-Quiet there w = ground arith

  save_rest : Compared → M m Bool
  unfolding set_json_to_file
  save_rest c = do
    _ ←
        set_json_to_file m (insert "computador" (obj m.computer) c.report)
          (folder <> "/coletaDiff.json")
    pure c.changed

  save_rest-Quiet :
      (c : Compared) (w : World m) → Ensures (save_rest c w) (λ b v. (b ≡ c.changed) × Quiet w v)
  unfolding save_rest set_json_to_file
  save_rest-Quiet c w = ground arith

  save_report-Quiet :
      (c : Compared) (w : World m)
      → Ensures (save_report m folder same c w) (λ b v. (b ≡ c.changed) × Quiet w v)
  unfolding save_report save_rest
  save_report-Quiet c w = elim (Bool-cases (is_empty_object c.difference)) [
    | inl none_found ↦ rw (none_found, save_report) (refl, (refl, refl))
    | inr some_found ↦
        rw (some_found, save_report)
          (Ensures-bind (drop_report m folder same _ w) (λ _. save_rest c) (λ _ v. Quiet w v)
            (λ b v. (b ≡ c.changed) × Quiet w v) (drop_report-Quiet _ w)
            λ _ v q.
              Ensures-mono (save_rest c v) (λ b u. (b ≡ c.changed) × Quiet v u) _
                (save_rest-Quiet c v) λ _ u r. (r.0, (r.1.0 ∙ q.0, r.1.1 ∙ q.1)))
  ]

  has_changed-Quiet :
      (old new : Object) (w : World m)
      → Ensures (has_changed m folder same old new w) (λ b v.
        (b ≡ (is_empty_object old || (compare_collections same old new).changed)) × Quiet w v)
  unfolding has_changed verify_collection
  has_changed-Quiet old new w = elim (Bool-cases (is_empty_object old)) [
    | inl bare ↦ rw (bare, has_changed) (refl, (refl, refl))
    | inr filled ↦ rw (filled, has_changed) (save_report-Quiet (compare_collections same old new) w)
  ]

  -- Where the collection before it can be read, `Gercols::run` notes in the registry that the new
  -- collection is to be sent exactly if there was none before or the comparison finds a difference;
  -- nothing else of the registry changes, and nothing is sent.
  pub run_notes :
      (old new : Object) (w : World m)
      → is_empty_object new ≡ false
      → get_json_from_file m (folder <> "/coleta.json") w ≡ ok old w
      → Ensures (run m folder same new w) (λ _ v.
        (v.registry
          ≡ store "enviaColeta"
              (flag (is_empty_object old || (compare_collections same old new).changed))
              w.registry)
        × (v.sent ≡ w.sent))
  unfolding run note_change set_values
  run_notes old new w filled reads =
      rw (filled, run)
        (rw reads (
          Ensures-bind (set_json_to_file m new (folder <> "/coleta.json") w) _ (λ _ v. Quiet w v) _
            (set_json-Quiet new (folder <> "/coleta.json") w)
            λ _ v q.
              Ensures-bind (has_changed m folder same old new v) (note_change m folder same) _ _
                (has_changed-Quiet old new v) λ b u (e, r). (ground (arith, e, q, r), r.1 ∙ q.1)))

  -- A first collection, or one in which the comparison finds a difference, is due for the daemon
  -- from then on.
  pub run_due :
      (old new : Object) (w : World m)
      → is_empty_object new ≡ false
      → get_json_from_file m (folder <> "/coleta.json") w ≡ ok old w
      → (is_empty_object old || (compare_collections same old new).changed) ≡ true
      → Ensures (run m folder same new w) (λ _ v. is_due m folder false v ≡ true)
  run_due old new w filled reads changed =
      Ensures-mono (run m folder same new w) _ _ (run_notes old new w filled reads) λ _ v h.
        ground (arith, h.0, lookup-store "enviaColeta" "enviaColeta" (flag true) w.registry)
