-- ===== src/Service/Operations/Sequence.antt =====
-- Any number of operations on one controller, in any order.
use cacic_agente.Base.{ℕ, refl, Bool, List, [], ◌∷◌}
use cacic_agente.Service.Scm.{Scm, Controller, M, ◌>>=◌, pure}
use cacic_agente.Service.Handles.{Idle, Closed, EndsIn, EndsIn-bind, Closed-trans}
use cacic_agente.Service.Operations.{is_running, is_installed, install, start, stop, uninstall}
use cacic_agente.Service.Operations.Handles.{is_running-Closed, start-Closed, stop-Closed}
use cacic_agente.Service.Operations.Removal.{is_installed-Closed, install-Closed, uninstall-Closed}

pub data Operation : Type 0 where
  asks_running asks_installed installs starts stops uninstalls : Operation

module _ (scm : Scm) (f : ℕ) where
  abbrev pub perform : Operation → M Bool
  perform asks_running = is_running scm
  perform asks_installed = is_installed scm
  perform installs = install scm
  perform starts = start scm f
  perform stops = stop scm f
  perform uninstalls = uninstall scm f

  unfoldable pub perform_all : List Operation → M (List Bool)
  perform_all [] = pure []
  perform_all (o ∷ os) = do b ← perform o; bs ← perform_all os; pure (b ∷ bs)

  perform-Closed :
      (o : Operation) (s : Controller) → Idle s → EndsIn (perform o s) (λ _ t. Closed s t)
  perform-Closed asks_running s i = is_running-Closed scm s i
  perform-Closed asks_installed s i = is_installed-Closed scm s i
  perform-Closed installs s i = install-Closed scm s i
  perform-Closed starts s i = start-Closed scm s i f
  perform-Closed stops s i = stop-Closed scm s i f
  perform-Closed uninstalls s i = uninstall-Closed scm f s i

  -- Whatever Windows answers, after any operations of a controller whose pointers hold no open
  -- handle, exactly the handles that were open before are open, and its pointers hold none of them.
  pub perform_all-Closed :
      (os : List Operation) (s : Controller)
      → Idle s
      → EndsIn (perform_all os s) (λ _ t. Closed s t)
  unfolding perform_all
  perform_all-Closed [] s i = (refl, i)
  perform_all-Closed (o ∷ os) s i =
      EndsIn-bind (perform o s) (λ b. perform_all os >>= λ bs. pure (b ∷ bs)) (λ _ t. Closed s t)
        (λ _ t. Closed s t) (perform-Closed o s i)
        λ b t c.
          EndsIn-bind (perform_all os t) (λ bs. pure (b ∷ bs)) (λ _ u. Closed t u)
            (λ _ u. Closed s u) (perform_all-Closed os t c.1) (λ _ u d. Closed-trans s t u c d)
