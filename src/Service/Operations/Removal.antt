-- ===== src/Service/Operations/Removal.antt =====
-- The handles that installing and removing a service leave.
use cacic_agente.Base.{
  ℕ, suc, refl, Bool, true, false, ◌||◌, ◌∙◌, is_some, ◌∷◌, arith, Bool-cases, inl, inr,
  if◌then◌else◌,
}
use cacic_agente.Service.Scm.{
  Scm, Controller, M, ◌>>=◌, close, close_one, call, note_error, open_service_handle,
  delete_service,
}
use cacic_agente.Service.Wait.Laws.{Keeps}
use cacic_agente.Service.Handles.{
  Idle, Held, Closed, EndsIn, EndsIn-bind, EndsIn-mono, close_one-Keeps, Keeps-Closed, Closed-trans,
  open_service-Held, AllBelow-mono, holds-above,
}
use cacic_agente.Service.Operations.{
  is_running, stop, is_installed, install, uninstall, remove_service, create, already_there,
  not_removed, delete_held, stop_and_remove, close_stale,
}
use cacic_agente.Service.Operations.Handles.{
  Closing, fail-Closing, succeed-Closing, is_running-Closed, stop-Closed,
}

module _ (scm : Scm) (s : Controller) (idle : Idle s) where
  pub is_installed-Closed : EndsIn (is_installed scm s) (λ _ t. Closed s t)
  unfolding is_installed note_error
  is_installed-Closed = ground (
    arith,
    holds-above s.next s.next s.opened idle.0 (omega arith),
    holds-above s.next (suc s.next) s.opened idle.0 (omega arith),
    AllBelow-mono s.next (suc s.next) s.opened (omega arith) idle.0,
    AllBelow-mono s.next (suc (suc s.next)) s.opened (omega arith) idle.0,
  )

  create-Closed : EndsIn (create scm s) (λ _ t. Closed s t)
  unfolding create note_error close
  create-Closed = ground (
    arith,
    holds-above s.next s.next s.opened idle.0 (omega arith),
    holds-above s.next (suc s.next) s.opened idle.0 (omega arith),
    AllBelow-mono s.next (suc s.next) s.opened (omega arith) idle.0,
    AllBelow-mono s.next (suc (suc s.next)) s.opened (omega arith) idle.0,
  )

  delete_held-Closing : Closing scm s idle (delete_held scm)
  unfolding delete_held
  delete_held-Closing t h = elim (Bool-cases (scm.deletes (delete_service ∷ t.calls))) [
    | inl gone ↦ rw (gone, delete_held) (succeed-Closing scm s idle true (call delete_service t) h)
    | inr kept ↦
        rw (kept, delete_held)
          (fail-Closing scm s idle "Uninstall Service" (call delete_service t) h)
  ]

  remove_service-Closed : EndsIn (remove_service scm s) (λ _ t. Closed s t)
  unfolding remove_service not_removed note_error
  remove_service-Closed =
      EndsIn-bind (open_service_handle scm s)
        (λ there.
          if there
          then delete_held scm
          else not_removed scm "Uninstall Service, Open Service Handle Failed")
        (λ there t. if there then Held s t else Closed s t) (λ _ u. Closed s u)
        (open_service-Held scm s idle) (elim [ true ↦ delete_held-Closing | false ↦ λ t c. c ])

  close-Keeps : EndsIn (close s) (λ _ t. Keeps s t)
  unfolding close
  close-Keeps =
      let t = close_one s.service s in
      let (m, v, o, n) = close_one-Keeps s.service s idle.2 in
      let (m', v', o', n') = close_one-Keeps s.manager t (rw (o, n) idle.1) in
      (m' ∙ m, v' ∙ v, o' ∙ o, n' ∙ n)

  close_stale-Closed : EndsIn (close_stale scm s) (λ _ t. Closed s t)
  unfolding close_stale
  close_stale-Closed = elim (Bool-cases (is_some s.manager || is_some s.service)) [
    | inl set ↦
        rw (set, close_stale)
          (Keeps-Closed s (close_one s.manager (close_one s.service s)) idle close-Keeps)
    | inr clear ↦ rw (clear, close_stale) (refl, idle)
  ]

module _ (scm : Scm) where
  then_remove : (s t : Controller) → Closed s t → EndsIn (remove_service scm t) (λ _ u. Closed s u)
  then_remove s t c =
      EndsIn-mono (remove_service scm t) _ _ (remove_service-Closed scm t c.1)
        λ _ u d. Closed-trans s t u c d

  stop_and_remove-Closed :
      (f : ℕ) (s t : Controller) → Closed s t → EndsIn (stop_and_remove scm f t) (λ _ u. Closed s u)
  unfolding stop_and_remove not_removed note_error
  stop_and_remove-Closed f s t c =
      EndsIn-bind (stop scm f t)
        (λ done.
          if done
          then remove_service scm
          else not_removed scm "Uninstall Service, can't stop service")
        (λ _ u. Closed t u) (λ _ u. Closed s u) (stop-Closed scm t c.1 f)
        (elim [
          | true ↦ λ u d. then_remove s u (Closed-trans s t u c d)
          | false ↦ λ u d. Closed-trans s t u c d
        ])

  abbrev by_state : ℕ → Bool → M Bool
  by_state f alive = if alive then stop_and_remove scm f else remove_service scm

  by_state-Closed :
      (f : ℕ) (s t : Controller)
      → Closed s t
      → EndsIn ((is_running scm >>= by_state f) t) (λ _ u. Closed s u)
  by_state-Closed f s t c =
      EndsIn-bind (is_running scm t) (by_state f) (λ _ u. Closed t u) (λ _ u. Closed s u)
        (is_running-Closed scm t c.1)
        (elim [
          | true ↦ λ u d. stop_and_remove-Closed f s u (Closed-trans s t u c d)
          | false ↦ λ u d. then_remove s u (Closed-trans s t u c d)
        ])

  pub uninstall-Closed :
      (f : ℕ) (s : Controller) → Idle s → EndsIn (uninstall scm f s) (λ _ t. Closed s t)
  unfolding uninstall
  uninstall-Closed f s idle =
      EndsIn-bind (close_stale scm s) (λ _. is_running scm >>= by_state f) (λ _ t. Closed s t)
        (λ _ t. Closed s t) (close_stale-Closed scm s idle) (λ _ t c. by_state-Closed f s t c)

  pub install-Closed : (s : Controller) → Idle s → EndsIn (install scm s) (λ _ t. Closed s t)
  unfolding install note_error
  install-Closed s idle =
      EndsIn-bind (is_installed scm s) (λ there. if there then already_there scm else create scm)
        (λ _ t. Closed s t) (λ _ t. Closed s t) (is_installed-Closed scm s idle)
        (elim [
          | true ↦ λ t c. c
          | false ↦ λ t c.
              EndsIn-mono (create scm t) _ _ (create-Closed scm t c.1)
                (λ _ u d. Closed-trans s t u c d)
        ])
