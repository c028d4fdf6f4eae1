-- ===== src/InstallCacic/Uninstall/Laws.antt =====
-- What the steps of the installer leave of the registry: it stays as it is, or the agent's is cleared.
use mathlib.Core.Path.{subst}
use cacic_agente.Base.{
  ◌≡◌, sym, Bool, true, false, String, ◌<>◌, List, [], ◌∷◌, inl, inr, Bool-cases, if◌then◌else◌,
  is_empty, is_some, contains, split, keep, not,
}
use cacic_agente.Log.{Level}
use cacic_agente.Machine.{Machine}
use cacic_agente.World.{World, M, Result, Ensures, ◌>>=◌, ◌>>◌, Registry}
use cacic_agente.World.Laws.{Ensures-bind}
use cacic_agente.Cacic.{delete_file}
use cacic_agente.InstallCacic.Uninstall.{
  System, attempt, log_failure, run_command, uninstall_agent, end_service, end_processes,
  kill_listed, kill_all, kill_second, remove_service, delete_entry, delete_entries, clear_folder,
  stays,
}

-- The operations of the system do not write the agent's registry.
pub record IsQuiet (m : Machine) (s : System m) : Type 0 where
  pub command_registry : (c : String) (w : World m) → (s.command c w).registry ≡ w.registry
  pub start_registry : (w : World m) → (s.start w).1.registry ≡ w.registry
  pub stop_registry : (w : World m) → (s.stop w).1.registry ≡ w.registry
  pub install_registry : (w : World m) → (s.install w).1.registry ≡ w.registry
  pub uninstall_registry : (w : World m) → (s.uninstall w).1.registry ≡ w.registry
  pub checker_registry : (w : World m) → (s.stop_checker w).registry ≡ w.registry
  pub folder_registry : (p : String) (w : World m) → (s.delete_folder p w).registry ≡ w.registry

-- A step returns, and leaves a registry that passes as one that does.
abbrev pub Leaves : {m : Machine} {A : Type 0} → (Registry → Type 0) → M m A → Type 0
Leaves {m} P f = (w : World m) → P w.registry → Ensures (f w) (λ _ v. P v.registry)

module _ {m : Machine} (P : Registry → Type 0) where
  pub bind-Leaves :
      {A B : Type 0} (f : M m A) (g : A → M m B)
      → Leaves P f
      → ((a : A) → Leaves P (g a))
      → Leaves P (f >>= g)
  bind-Leaves f g h k w p =
      Ensures-bind (f w) g (λ _ v. P v.registry) (λ _ v. P v.registry) (h w p) (λ a v q. k a v q)

  pub then-Leaves :
      {B : Type 0} (f : M m (Unit {0})) (g : M m B) → Leaves P f → Leaves P g → Leaves P (f >> g)
  then-Leaves f g h k w p =
      Ensures-bind (f w) (λ _. g) (λ _ v. P v.registry) (λ _ v. P v.registry) (h w p)
        (λ a v q. k v q)

  pub if-Leaves :
      {A : Type 0} (b : Bool) (f g : M m A)
      → Leaves P f
      → Leaves P g
      → Leaves P (if b then f else g)
  if-Leaves true f g h k = h
  if-Leaves false f g h k = k

  -- A result that a test of the world chooses
  pub choice-Ensures :
      {A : Type 0} (b : Bool) (r t : Result m A) (Q : A → World m → Type 0)
      → Ensures r Q
      → Ensures t Q
      → Ensures (if b then r else t) Q
  choice-Ensures true r t Q h k = h
  choice-Ensures false r t Q h k = k

module _ (m : Machine) (s : System m) (folder : String) (quiet : IsQuiet m s)
    (P : Registry → Type 0) where
  pub command-Leaves : (c : String) → Leaves P (run_command m s folder c)
  command-Leaves c w p = subst P (sym (quiet.command_registry c w)) p

  pub attempt-Leaves :
      (f : World m → Bool × World m)
      → ((w : World m) → (f w).1.registry ≡ w.registry)
      → Leaves P (attempt m s folder f)
  attempt-Leaves f e w p = subst P (sym (e w)) p

  pub log_failure-Leaves :
      (l : Level) (t : String) (done : Bool) → Leaves P (log_failure m s folder l t done)
  unfolding log_failure
  log_failure-Leaves l t true w p = p
  log_failure-Leaves l t false w p = p

  kill_second-Leaves : (columns : List String) → Leaves P (kill_second m s folder columns)
  unfolding kill_second
  kill_second-Leaves [] w p = p
  kill_second-Leaves (user ∷ []) w p = p
  kill_second-Leaves (user ∷ pid ∷ columns) w p = command-Leaves ("kill -9 " <> pid) w p

  kill_all-Leaves : (ls : List String) → Leaves P (kill_all m s folder ls)
  unfolding kill_all
  kill_all-Leaves [] w p = p
  kill_all-Leaves (l ∷ ls) w p =
      if-Leaves P (contains l "grep") _ _ (kill_all-Leaves ls)
        (then-Leaves P _ _ (kill_second-Leaves (keep (λ c. not (is_empty c)) (split b' ' l)))
          (kill_all-Leaves ls))
        w p

  end_processes-Leaves : Leaves P (end_processes m s folder)
  unfolding end_processes kill_listed
  end_processes-Leaves w p = kill_all-Leaves _ _ (
      command-Leaves "/etc/init.d/cacic3 stop" _
        (command-Leaves "killall -eq cacic-service gercols" w p))

  remove_service-Leaves : Leaves P (remove_service m s folder)
  unfolding remove_service
  remove_service-Leaves w p =
      log_failure-Leaves _ _ _ _ (subst P (sym (quiet.uninstall_registry (record w { log = _ }))) p)

  end_service-Leaves : Leaves P (end_service m s folder)
  unfolding end_service
  end_service-Leaves w p =
      choice-Ensures P s.windows _ _ _
        (choice-Ensures P (s.is_installed w) _ _ _ (remove_service-Leaves w p) p)
        (end_processes-Leaves w p)

  delete_entry-Leaves :
      (n : String) (is_folder : Bool) → Leaves P (delete_entry m s folder n is_folder)
  unfolding delete_entry delete_file
  delete_entry-Leaves n true w p = subst P (sym (quiet.folder_registry _ w)) p
  delete_entry-Leaves n false w p =
      elim (Bool-cases (is_some (m.read w.disk (folder <> ("/" <> n))))) [
        | inl there ↦ rw there p
        | inr missing ↦ rw missing p
      ]

  delete_entries-Leaves : (es : List (String × Bool)) → Leaves P (delete_entries m s folder es)
  unfolding delete_entries
  delete_entries-Leaves [] w p = p
  delete_entries-Leaves ((n, is_folder) ∷ es) w p =
      if-Leaves P (stays n) _ _ (delete_entries-Leaves es)
        (then-Leaves P _ _ (delete_entry-Leaves n is_folder) (delete_entries-Leaves es)) w p

  clear_folder-Leaves : Leaves P (clear_folder m s folder)
  unfolding clear_folder
  clear_folder-Leaves w p =
      choice-Ensures P (is_empty folder) _ _ _ p (delete_entries-Leaves (s.entries w) w p)

  -- The removal clears the registry.
  pub uninstall_agent-Leaves : P [] → Leaves P (uninstall_agent m s folder)
  unfolding uninstall_agent
  uninstall_agent-Leaves cleared =
      bind-Leaves P (end_service m s folder) _ end_service-Leaves
        (λ _ v _. clear_folder-Leaves _ cleared)
