-- ===== src/World/Laws.antt =====
-- Steps in sequence.
use cacic_agente.Base.{◌≡◌, refl}
use cacic_agente.Machine.{Machine}
use cacic_agente.World.{World, M, Result, ok, exit, bind_result, Holds, Ensures}

module _ {m : Machine} {A B : Type 0} where
  pub Holds-bind :
      (r : Result m A) (f : A → M m B) (P : A → World m → Type 0) (Q : B → World m → Type 0)
      → Holds r P
      → ((a : A) (v : World m) → P a v → Holds (f a v) Q)
      → Holds (bind_result r f) Q
  Holds-bind (ok a w) f P Q h k = k a w h
  Holds-bind (exit s w) f P Q h k = tt

  pub Ensures-bind :
      (r : Result m A) (f : A → M m B) (P : A → World m → Type 0) (Q : B → World m → Type 0)
      → Ensures r P
      → ((a : A) (v : World m) → P a v → Ensures (f a v) Q)
      → Ensures (bind_result r f) Q
  Ensures-bind (ok a w) f P Q h k = k a w h
  Ensures-bind (exit s w) f P Q h k = absurd h

module _ {m : Machine} {A : Type 0} where
  pub Holds_any : (r : Result m A) → Holds r (λ _ _. Unit {0})
  Holds_any (ok a w) = tt
  Holds_any (exit s w) = tt

  pub Ensures-Holds : (r : Result m A) (P : A → World m → Type 0) → Ensures r P → Holds r P
  Ensures-Holds (ok a w) P h = h
  Ensures-Holds (exit s w) P h = absurd h

  pub Holds-mono :
      (r : Result m A) (P Q : A → World m → Type 0)
      → Holds r P
      → ((a : A) (v : World m) → P a v → Q a v)
      → Holds r Q
  Holds-mono (ok a w) P Q h k = k a w h
  Holds-mono (exit s w) P Q h k = tt

  pub Ensures-mono :
      (r : Result m A) (P Q : A → World m → Type 0)
      → Ensures r P
      → ((a : A) (v : World m) → P a v → Q a v)
      → Ensures r Q
  Ensures-mono (ok a w) P Q h k = k a w h
  Ensures-mono (exit s w) P Q h k = absurd h

-- What a step ensures holds of the value and the world that it returns.
pub Ensures-self :
    {m : Machine} {A : Type 0} (r : Result m A) (P : A → World m → Type 0)
    → Ensures r P
    → Ensures r (λ a v. P a v × (r ≡ ok a v))
Ensures-self (ok a w) P h = (h, refl)
Ensures-self (exit s w) P h = absurd h

pub Holds-self :
    {m : Machine} {A : Type 0} (r : Result m A) (P : A → World m → Type 0)
    → Holds r P
    → Holds r (λ a v. P a v × (r ≡ ok a v))
Holds-self (ok a w) P h = (h, refl)
Holds-self (exit s w) P h = tt
