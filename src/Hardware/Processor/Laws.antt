-- ===== src/Hardware/Processor/Laws.antt =====
-- The lines that the speed of a processor is read from.
use cacic_agente.Base.{
  ◌≡◌, refl, ◌↔◌, ◌⊎◌, inl, inr, true, ◌||◌, String, none, some, List, [], ◌∷◌, split, length,
  contains, arith,
}
use cacic_agente.Json.{Json, Object}
use cacic_agente.Collection.{M, ◌>>=◌, pure, Exceptions}
use cacic_agente.Hardware.Processor.{speed_of, read_speed, read_processor_line}

speed_of-eq-none : (ws : List String) → (speed_of ws ≡ none) ↔ ((length ws ≡ 2) ⊎ (length ws ≡ 3))
unfolding speed_of
speed_of-eq-none [] = (λ h. ground arith, λ h. ground arith)
speed_of-eq-none (a ∷ []) = (λ h. ground arith, λ h. ground arith)
speed_of-eq-none (a ∷ b ∷ []) = (λ h. inl refl, λ h. refl)
speed_of-eq-none (a ∷ b ∷ c ∷ []) = (λ h. inr refl, λ h. refl)
speed_of-eq-none (a ∷ b ∷ c ∷ d ∷ ws) = (λ h. ground arith, λ h. ground arith)

pure_bind : (m : M String) (f : String → Object) → ((m >>= λ a. pure (f a)) ≡ none) ↔ (m ≡ none)
pure_bind none f = ((λ h. refl), λ h. refl)
pure_bind (some a) f = ((λ h. cc), λ h. cc)

-- A line of `dmidecode` with a speed makes `coletaLinuxCpu` read past the end of its words exactly if
-- it has two words or three.
pub read_processor_line-eq-none :
    (console : String → String) (e : Exceptions) (number : Json → String) (line : String)
    (o : Object)
    → (contains line "Max Speed" || contains line "Current Speed") ≡ true
    → (read_processor_line console e number line o ≡ none)
      ↔ ((length (split b' ' line) ≡ 2) ⊎ (length (split b' ' line) ≡ 3))
unfolding read_processor_line
read_processor_line-eq-none console e number line o h = rw h (
    let p =
      pure_bind (speed_of (split b' ' line)) (λ speed. read_speed console e number line speed o) in
    let q = speed_of-eq-none (split b' ' line) in ((λ x. q.0 (p.0 x)), λ x. p.1 (q.1 x)))
