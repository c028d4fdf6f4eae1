-- ===== src/World.antt =====
-- The state that the agent's processes share, and the monad of the code that works on it.
pub mod Route
pub mod Laws
use cacic_agente.Base.{
  ℕ, ◌≡◌, Bool, true, false, String, ◌===◌, Option, none, some, List, [], ◌∷◌, if◌then◌else◌,
  is_some, is_empty,
}
use cacic_agente.Json.{Variant, invalid}
use cacic_agente.Log.{Level}
use cacic_agente.Machine.{Machine, Request}

abbrev pub Registry : Type 0
Registry = List (String × Variant)

-- A line of the log: its level and its message.
abbrev pub Line : Type 0
Line = Level × String

-- Requests and lines stand with the newest first.
pub record World (m : Machine) : Type 0 where
  pub disk : m.Disk
  pub registry : Registry
  pub sent : List Request
  pub log : List Line

-- A step returns, or ends the process by `exit` with a status.
pub data Result (m : Machine) (A : Type 0) : Type 0 where
  ok : A → World m → Result m A
  exit : ℕ → World m → Result m A

abbrev pub M : Machine → Type 0 → Type 0
M m A = World m → Result m A

module _ {m : Machine} {A : Type 0} where
  abbrev pub pure : A → M m A
  pure a w = ok a w

  abbrev pub bind_result : {B : Type 0} → Result m A → (A → M m B) → Result m B
  bind_result (ok a w) f = f a w
  bind_result (exit s w) f = exit s w

  infixl 5 ◌>>=◌
  abbrev pub ◌>>=◌ : {B : Type 0} → M m A → (A → M m B) → M m B
  ◌>>=◌ e f w = bind_result (e w) f

  -- The world when the step was over.
  abbrev pub world : Result m A → World m
  world (ok a w) = w
  world (exit s w) = w

  -- Whether the step returned a value that passes the test.
  abbrev pub returns : (A → Bool) → Result m A → Bool
  returns p (ok a w) = p a
  returns p (exit s w) = false

  -- The step returns, and its value and the world after it are as stated.
  abbrev pub Ensures : Result m A → (A → World m → Type 0) → Type 0
  Ensures (ok a w) P = P a w
  Ensures (exit s w) P = ⊥

  -- If the step returns, its value and the world after it are as stated.
  abbrev pub Holds : Result m A → (A → World m → Type 0) → Type 0
  Holds (ok a w) P = P a w
  Holds (exit s w) P = Unit

infixl 5 ◌>>◌
abbrev pub ◌>>◌ : {m : Machine} {B : Type 0} → M m (Unit {0}) → M m B → M m B
◌>>◌ e k w = bind_result (e w) (λ _. k)

module _ (m : Machine) where
  -- `logcacic->escrever(level, msg)`
  abbrev pub write_log : Level → String → M m (Unit {0})
  write_log l s w = ok tt (record w { log = (l, s) ∷ w.log })

  -- `QFile::exists`
  abbrev pub exists : String → M m Bool
  exists p w = ok (is_some (m.read w.disk p)) w

  abbrev pub remove : String → M m Bool
  remove p w = let (done, d) = m.remove w.disk p in ok done (record w { disk = d })

  abbrev pub copy : String → String → M m Bool
  copy p t w = let (done, d) = m.copy w.disk p t in ok done (record w { disk = d })

unfoldable pub lookup : String → Registry → Variant
lookup k [] = invalid
lookup k ((j, v) ∷ r) = if j === k then v else lookup k r

unfoldable pub store : String → Variant → Registry → Registry
store k v [] = (k, v) ∷ []
store k v ((j, w) ∷ r) = if j === k then (k, v) ∷ r else (j, w) ∷ store k v r

-- Nothing but the log differs.
abbrev pub Silent : {m : Machine} → World m → World m → Type 0
Silent w v = (v.disk ≡ w.disk) × (v.registry ≡ w.registry) × (v.sent ≡ w.sent)
