-- ===== src/Timer/Update/Laws.antt =====
-- What becomes of a module that is replaced.
use text.Mathlib.TextEquality.{eq_iff}
use cacic_agente.Base.{
  ◌≡◌, refl, ◌⊎◌, inl, inr, Bool, true, false, String, ◌===◌, Option, none, List, [], ◌∷◌, ◌++◌,
  arith, Bool-cases, contains, is_some, clean,
}
use cacic_agente.Machine.{Machine}
use cacic_agente.Machine.Laws.{IsLawful}
use cacic_agente.World.{World, ok, exit, Result, bind_result, Ensures}
use cacic_agente.World.Laws.{Ensures-bind, Ensures-mono}
use cacic_agente.Thread.{Outside}
use cacic_agente.Timer.Update.{
  target, source, replace_module, replace_modules, remove_old, move_new, wait_thread, start_checker,
  stop_checker,
}

-- A removal and a copy on a disk, for two paths that name two files
module _ (m : Machine) (lawful : IsLawful m) where
  read-remove_other :
      (d : m.Disk) (p q : String)
      → (clean q === clean p) ≡ false
      → m.read (m.remove d p).1 q ≡ m.read d q
  read-remove_other d p q apart = elim (Bool-cases (m.remove d p).0) [
    | inl done ↦ ground (arith, lawful.read-remove_true d p q done)
    | inr failed ↦ lawful.read-remove_false d p q failed
  ]

  read-remove_same :
      (d : m.Disk) (p : String)
      → (m.read (m.remove d p).1 p ≡ none) ⊎ (m.read (m.remove d p).1 p ≡ m.read d p)
  read-remove_same d p = elim (Bool-cases (m.remove d p).0) [
    | inl done ↦
        inl (ground (arith, lawful.read-remove_true d p p done, eq_iff (clean p) (clean p)))
    | inr failed ↦ inr (lawful.read-remove_false d p p failed)
  ]

  read-copy_same :
      (d : m.Disk) (p t : String)
      → (m.read (m.copy d p t).1 t ≡ m.read d p) ⊎ (m.read (m.copy d p t).1 t ≡ m.read d t)
  read-copy_same d p t = elim (Bool-cases (m.copy d p t).0) [
    | inl done ↦
        inl (ground (arith, lawful.read-copy_true d p t t done, eq_iff (clean t) (clean t)))
    | inr failed ↦ inr (lawful.read-copy_false d p t t failed)
  ]

same_bind :
    {m : Machine} {A : Type 0} {f g : World m → Result m A} (r : Result m (Unit {0}))
    → ((w : World m) → f w ≡ g w)
    → bind_result r (λ _. f) ≡ bind_result r (λ _. g)
same_bind (ok a w) h = h w
same_bind (exit s w) h = refl

module _ (m : Machine) (lawful : IsLawful m) (out : Outside m) (windows : Bool) (folder : String)
    (busy : Bool) where
  abbrev pub old_of : String → World m → Option m.Bytes
  old_of name w = m.read w.disk (target m out windows folder busy name)

  abbrev pub new_of : String → World m → Option m.Bytes
  new_of name w = m.read w.disk (source m out windows folder busy name)

  abbrev Removed : String → World m → World m → Type 0
  Removed name w v =
      (new_of name v ≡ new_of name w) × ((old_of name v ≡ none) ⊎ (old_of name v ≡ old_of name w))

  -- The three ends: the old module was not removed, and nothing changes; the new one took its
  -- place; or the copy failed, and there is none.
  abbrev pub Replaced : String → World m → World m → Type 0
  Replaced name w v =
      ((old_of name v ≡ old_of name w) × (new_of name v ≡ new_of name w))
      ⊎ ((old_of name v ≡ new_of name w) ⊎ (old_of name v ≡ none))

  module _ (stopping : (w : World m) → (out.stop_checker w).disk ≡ w.disk)
      (starting : (w : World m) → (out.start_checker w).disk ≡ w.disk) (name : String)
      (apart : (clean (source m out windows folder busy name)
          === clean (target m out windows folder busy name))
        ≡ false)
      (apart' : (clean (target m out windows folder busy name)
          === clean (source m out windows folder busy name))
        ≡ false) where
    remove_target-Removed :
        (w v : World m)
        → v.disk ≡ w.disk
        → Removed name w
            (record v { disk = (m.remove v.disk (target m out windows folder busy name)).1 })
    remove_target-Removed w v e = ground (
      arith,
      e,
      read-remove_other m lawful w.disk (target m out windows folder busy name)
          (source m out windows folder busy name) apart,
      read-remove_same m lawful w.disk (target m out windows folder busy name),
    )

    stop_checker-disk :
        (w : World m)
        → Ensures (stop_checker m out windows folder busy name w) (λ _ v. v.disk ≡ w.disk)
    unfolding stop_checker
    stop_checker-disk w = ground (arith, stopping w)

    start_checker-disk :
        (w : World m)
        → Ensures (start_checker m out windows folder busy name w) (λ _ v. v.disk ≡ w.disk)
    unfolding start_checker
    start_checker-disk w = ground (arith, starting w)

    wait_thread-disk :
        (w : World m) → Ensures (wait_thread m out windows folder busy w) (λ _ v. v.disk ≡ w.disk)
    unfolding wait_thread
    wait_thread-disk w = ground arith

    remove_old-Removed :
        (there : Bool) (w : World m)
        → Ensures (remove_old m out windows folder busy name there w) (λ _ v. Removed name w v)
    unfolding remove_old
    remove_old-Removed true w =
        Ensures-bind (stop_checker m out windows folder busy name w) _ (λ _ v. v.disk ≡ w.disk)
          (λ _ v. Removed name w v) (stop_checker-disk w) λ _ v e. remove_target-Removed w v e
    remove_old-Removed false w = (refl, inr refl)

    move_new-Replaced :
        (still : Bool) (w v : World m)
        → is_some (old_of name v) ≡ still
        → Removed name w v
        → Ensures (move_new m out windows folder busy name still v) (λ _ u. Replaced name w u)
    unfolding move_new
    move_new-Replaced true w v e h = ground (arith, e, h)
    move_new-Replaced false w v e h = ground (
      arith,
      e,
      h,
      read-copy_same m lawful v.disk (source m out windows folder busy name)
          (target m out windows folder busy name),
      read-remove_other m lawful
          (m.copy v.disk (source m out windows folder busy name)
            (target m out windows folder busy name)).1
          (source m out windows folder busy name) (target m out windows folder busy name) apart',
    )

    Removed-from : (w v u : World m) → v.disk ≡ w.disk → Removed name v u → Removed name w u
    Removed-from w v u e h = ground (arith, e, h)

    Replaced-on : (w t x : World m) → x.disk ≡ t.disk → Replaced name w t → Replaced name w x
    Replaced-on w t x e h = ground (arith, e, h)

    -- `verificarModulos` on a module that is not the service: where the checker's start and stop do
    -- not touch the disk and the two paths name two files, the old module stays and the new one
    -- still waits, or the new one stands in its place, or there is none in its place.
    pub replace_module-Replaced :
        (w : World m)
        → Ensures (replace_module m out windows folder busy name w) (λ _ v. Replaced name w v)
    unfolding replace_module
    replace_module-Replaced w =
        Ensures-bind (wait_thread m out windows folder busy w) _ (λ _ v. v.disk ≡ w.disk)
          (λ _ v. Replaced name w v) (wait_thread-disk w)
          λ _ v e.
            Ensures-bind (remove_old m out windows folder busy name (is_some (old_of name v)) v) _
              (λ _ u. Removed name v u) (λ _ u. Replaced name w u)
              (remove_old-Removed (is_some (old_of name v)) v)
              λ _ u r.
                Ensures-bind (move_new m out windows folder busy name (is_some (old_of name u)) u) _
                  (λ _ t. Replaced name w t) (λ _ t. Replaced name w t)
                  (move_new-Replaced (is_some (old_of name u)) w u refl (Removed-from w v u e r))
                  λ _ t h.
                    Ensures-mono (start_checker m out windows folder busy name t)
                      (λ _ x. x.disk ≡ t.disk) (λ _ x. Replaced name w x) (start_checker-disk t)
                      λ _ x d. Replaced-on w t x d h

-- What stands in the temporary folder after the service is left alone.
replace_modules-service :
    (m : Machine) (out : Outside m) (windows : Bool) (folder : String) (busy : Bool)
    → (before after : List String) (name : String) (w : World m)
    → contains name "cacic-service" ≡ true
    → replace_modules m out windows folder busy (before ++ (name ∷ after)) w
      ≡ replace_modules m out windows folder busy (before ++ (name ∷ [])) w
unfolding replace_modules
replace_modules-service m out windows folder busy [] after name w h = rw h refl
replace_modules-service m out windows folder busy (b ∷ before) after name w h =
    elim (Bool-cases (contains b "cacic-service")) [
      | inl here ↦ rw here refl
      | inr other ↦ rw other (
          same_bind (replace_module m out windows folder busy b w)
            (λ v. replace_modules-service m out windows folder busy before after name v h))
    ]
