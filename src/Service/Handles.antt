-- ===== src/Service/Handles.antt =====
-- What is open before, within and after an operation, and the steps that open and close handles.
use cacic_agente.Base.{
  ℕ, suc, ◌≤◌, ◌<◌, ◌≡◌, refl, Bool, false, ◌||◌, String, Option, none, some, List, [], ◌∷◌, ◌==◌,
  arith, ◌∙◌, if◌then◌else◌,
}
use cacic_agente.Service.Scm.{
  Scm, Controller, M, erase, close_one, close, note_last, note_error, open_service_handle,
}
use cacic_agente.Service.Wait.Laws.{Keeps, Ends}

abbrev pub holds : ℕ → List ℕ → Bool
holds h [] = false
holds h (x ∷ xs) = x == h || holds h xs

abbrev pub AllBelow : ℕ → List ℕ → Type 0
AllBelow n [] = Unit
AllBelow n (x ∷ xs) = (x < n) × AllBelow n xs

-- A pointer that holds no open handle.
abbrev pub IsStale : Option ℕ → ℕ → List ℕ → Type 0
IsStale none next opened = Unit
IsStale (some h) next opened = (h < next) × (holds h opened ≡ false)

-- Between two operations: the handles that are open are not the controller's.
abbrev pub Idle : Controller → Type 0
Idle s =
    AllBelow s.next s.opened × IsStale s.manager s.next s.opened × IsStale s.service s.next s.opened

-- After an operation: the same handles are open as before it.
abbrev pub Closed : Controller → Controller → Type 0
Closed s t = (t.opened ≡ s.opened) × Idle t

-- Within an operation: the two handles of the controller are open besides.
abbrev pub Held : Controller → Controller → Type 0
Held s t =
    (t.manager ≡ some s.next)
    × (t.service ≡ some (suc s.next))
    × (t.opened ≡ suc s.next ∷ s.next ∷ s.opened)
    × (suc (suc s.next) ≤ t.next)

-- If the step ends, its value and the state after it are as stated.
abbrev pub EndsIn : {A : Type 0} → Option (A × Controller) → (A → Controller → Type 0) → Type 0
EndsIn none P = Unit
EndsIn (some (a, t)) P = P a t

pub EndsIn-bind :
    {A B : Type 0} (r : Option (A × Controller)) (f : A → M B) (P : A → Controller → Type 0)
    (Q : B → Controller → Type 0)
    → EndsIn r P
    → ((a : A) (t : Controller) → P a t → EndsIn (f a t) Q)
    → EndsIn (elim r [ none ↦ none | some (a, t) ↦ f a t ]) Q
EndsIn-bind none f P Q h k = tt
EndsIn-bind (some (a, t)) f P Q h k = k a t h

pub EndsIn-mono :
    {A : Type 0} (r : Option (A × Controller)) (P Q : A → Controller → Type 0)
    → EndsIn r P
    → ((a : A) (t : Controller) → P a t → Q a t)
    → EndsIn r Q
EndsIn-mono none P Q h k = tt
EndsIn-mono (some (a, t)) P Q h k = k a t h

pub Ends-EndsIn :
    {A : Type 0} (r : Option (A × Controller)) (P : Controller → Type 0)
    → Ends r P
    → EndsIn r (λ _ t. P t)
Ends-EndsIn none P h = tt
Ends-EndsIn (some (a, t)) P h = h

pub holds-above : (n h : ℕ) (xs : List ℕ) → AllBelow n xs → n ≤ h → holds h xs ≡ false
holds-above n h [] b l = refl
holds-above n h (x ∷ xs) b l = ground (arith, holds-above n h xs b.1 l)

pub AllBelow-mono : (n k : ℕ) (xs : List ℕ) → n ≤ k → AllBelow n xs → AllBelow k xs
AllBelow-mono n k [] l b = tt
AllBelow-mono n k (x ∷ xs) l b = (omega arith, AllBelow-mono n k xs l b.1)

pub Held-Keeps : (s t u : Controller) → Held s t → Keeps t u → Held s u
Held-Keeps s t u (m, v, o, n) (m', v', o', n') = ground arith

-- Closing what is held leaves what was open before.
pub close-Closed : (s t : Controller) → Idle s → Held s t → EndsIn (close t) (λ _ u. Closed s u)
unfolding close
close-Closed s t i h = ground (
  arith,
  holds-above s.next s.next s.opened i.0 (omega arith),
  holds-above s.next (suc s.next) s.opened i.0 (omega arith),
  AllBelow-mono s.next t.next s.opened (omega (arith, h.3)) i.0,
)

module _ (scm : Scm) where
  pub note_last-Keeps :
      (detail : String) (s : Controller) → EndsIn (note_last scm detail s) (λ _ t. Keeps s t)
  unfolding note_last note_error
  note_last-Keeps detail s = (refl, refl, refl, refl)

  pub open_service-Held :
      (s : Controller)
      → Idle s
      → EndsIn (open_service_handle scm s) (λ b t. if b then Held s t else Closed s t)
  unfolding open_service_handle note_error
  open_service-Held s i = ground (
    arith,
    holds-above s.next s.next s.opened i.0 (omega arith),
    AllBelow-mono s.next (suc s.next) s.opened (omega arith) i.0,
    AllBelow-mono s.next (suc (suc s.next)) s.opened (omega arith) i.0,
  )

-- Closing a handle that is not open changes nothing that is open.
erase-absent : (h : ℕ) (xs : List ℕ) → holds h xs ≡ false → erase h xs ≡ xs
erase-absent h [] e = refl
erase-absent h (x ∷ xs) e = ground (arith, erase-absent h xs)

pub close_one-Keeps :
    (p : Option ℕ) (s : Controller) → IsStale p s.next s.opened → Keeps s (close_one p s)
close_one-Keeps none s i = (refl, refl, refl, refl)
close_one-Keeps (some h) s i = (refl, refl, erase-absent h s.opened i.1, refl)

pub Keeps-Closed : (s t : Controller) → Idle s → Keeps s t → Closed s t
Keeps-Closed s t i (m, v, o, n) = (o, rw (m, v, o, n) i)

pub Closed-trans : (s t u : Controller) → Closed s t → Closed t u → Closed s u
Closed-trans s t u c d = (d.0 ∙ c.0, d.1)
