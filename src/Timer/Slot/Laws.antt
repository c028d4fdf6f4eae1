-- ===== src/Timer/Slot/Laws.antt =====
-- The mutex over the rounds of the daemon.
use mathlib.Core.Path.{subst}
use cacic_agente.Base.{
  ℕ, ℤ, suc, ◌+◌, ◌≤◌, ◌≡◌, refl, ◌⊎◌, inl, Bool, true, false, String, Option, none, some, List,
  arith,
}
use cacic_agente.Machine.{Machine}
use cacic_agente.World.{World, M, ok, Result, bind_result, Holds}
use cacic_agente.World.Laws.{Holds-bind, Holds_any}
use cacic_agente.CheckModules.{start}
use cacic_agente.Thread.{Mutex, lock, Outside}
use cacic_agente.Timer.Contact.{communicate}
use cacic_agente.Timer.Launch.{start_round}
use cacic_agente.Timer.Launch.Laws.{RoundOf, start_round-RoundOf}
use cacic_agente.Timer.Period.{update_period}
use cacic_agente.Timer.Slot.{
  Daemon, mslot, reached, checked, launch, finish, clear_others, note_check,
}
use cacic_agente.Timer.Update.{verify_modules}

-- From one round to the next: the mutex as it was, or locked once more.
abbrev pub Follows : Daemon → Option Daemon → Type 0
Follows s none = Unit
Follows s (some t) = (t.mutex ≡ s.mutex) ⊎ (t.mutex ≡ lock s.mutex)

module _ (m : Machine) (out : Outside m) (windows : Bool) (folder : String)
    (lines : m.Bytes → List String) (parse : String → ℤ) (number : ℤ → String) (busy : Bool)
    (clear_old : M m Bool) where
  -- A step whose result does not matter here
  after :
      {A B : Type 0} (r : Result m A) (f : A → M m B) (P : B → Type 0)
      → ((a : A) (v : World m) → Holds (f a v) (λ b _. P b))
      → Holds (bind_result r f) (λ b _. P b)
  after r f P h = Holds-bind r f (λ _ _. Unit {0}) (λ b _. P b) (Holds_any r) (λ a v _. h a v)

  finish-Follows :
      (s : Daemon) (k : Option Mutex) (w : World m)
      → RoundOf m out windows folder lines s.mutex k
      → Holds
          (finish m out windows folder lines parse number busy clear_old s k w)
          (λ r _. Follows s r)
  unfolding finish
  finish-Follows s none w h = tt
  finish-Follows s (some k) w h =
      after (verify_modules m out windows folder busy w) _ (Follows s)
        λ ended v. after (update_period m folder parse number s.periods v) _ (Follows s) λ q u. h

  launch-Follows :
      (s : Daemon) (w : World m)
      → Holds
          (launch m out windows folder lines parse number busy clear_old s w)
          (λ r _. Follows s r)
  unfolding launch
  launch-Follows s w =
      Holds-bind (start_round m out windows folder lines busy s.mutex w) _
        (λ k _. RoundOf m out windows folder lines s.mutex k) (λ r _. Follows s r)
        (start_round-RoundOf m out windows folder lines busy s.mutex w)
        λ k v h. finish-Follows s k v h

  checked-Follows :
      (s : Daemon) (good : Option Bool) (w : World m)
      → Holds
          (checked m out windows folder lines parse number busy clear_old s good w)
          (λ r _. Follows s r)
  unfolding checked
  checked-Follows s none w = tt
  checked-Follows s (some good) w =
      after (note_check m out windows folder lines parse number busy clear_old good w) _ (Follows s)
        λ _ v. launch-Follows s v

  reached-Follows :
      (s : Daemon) (there : Bool) (w : World m)
      → Holds
          (reached m out windows folder lines parse number busy clear_old s there w)
          (λ r _. Follows s r)
  unfolding reached
  reached-Follows s true w =
      after (clear_others m out windows folder lines parse number busy clear_old w) _ (Follows s)
        λ _ v. after (start m windows folder v) _ (Follows s) λ good u. checked-Follows s good u
  reached-Follows s false w = inl refl

  mslot-Follows :
      (s : Daemon) (w : World m)
      → Holds
          (mslot m out windows folder lines parse number busy clear_old s w)
          (λ r _. Follows s r)
  unfolding mslot
  mslot-Follows s w =
      after (communicate m folder w) _ (Follows s) λ there v. reached-Follows s there v

module _ (m : Machine) (out : Outside m) (windows : Bool) (folder : String)
    (lines : m.Bytes → List String) (parse : String → ℤ) (number : ℤ → String)
    (clear_old : M m Bool) where
  -- So many rounds, each in a world that others may have changed since the one before.
  pub data Rounds (s : Daemon) : ℕ → Daemon → Type 0 where
    none_yet : Rounds s 0 s
    one_more :
        {n : ℕ} {t u : Daemon} {v : World m} (busy : Bool) (w : World m)
        → Rounds s n t
        → mslot m out windows folder lines parse number busy clear_old t w ≡ ok (some u) v
        → Rounds s (suc n) u

  Follows-of :
      (t u : Daemon) (w v : World m) (busy : Bool)
      → mslot m out windows folder lines parse number busy clear_old t w ≡ ok (some u) v
      → Follows t (some u)
  Follows-of t u w v busy e =
      subst (λ r. Holds r (λ d _. Follows t d)) e
        (mslot-Follows m out windows folder lines parse number busy clear_old t w)

  -- Over any number of rounds that return, the mutex is locked at most once more for each, and is
  -- never unlocked more often than it is locked.
  pub Rounds-level :
      {s t : Daemon} {n : ℕ}
      → Rounds s n t
      → (s.mutex.level ≤ t.mutex.level)
        × (t.mutex.level ≤ s.mutex.level + n)
        × (t.mutex.misused ≡ s.mutex.misused)
  Rounds-level none_yet = (omega arith, omega arith, refl)
  Rounds-level (one_more {n} {t} {u} {v} busy w r e) =
      ground (arith, Rounds-level r, Follows-of t u w v busy e)
