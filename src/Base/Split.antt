-- ===== src/Base/Split.antt =====
-- A text that is split at a character.
use Prim.Native.Nat.{ℕ}
use Prim.Native.Char.{Char, code}
use Prim.Native.String.{String, ◌++◌ as ◌<>◌}
use mathlib.Core.Path.{◌≡◌, refl}
use mathlib.Core.Bool.{Bool, true, false, ◌||◌}
use mathlib.Core.List.{[], ◌∷◌}
use native.Mathlib.Omega.{arith}
use text.Mathlib.TextLemmas.{nil-append, cons-append}
use cacic_agente.Base.Tests.{◌==◌}
use cacic_agente.Base.Text.{split, has_char}

pub none_of : (a b : Bool) → (a || b) ≡ false → (a ≡ false) × (b ≡ false)
none_of a b h = ground (arith, h)

same_number : (n : ℕ) → (n == n) ≡ true
same_number n = ground arith

pub split-append :
    (d : Char) (s t : String)
    → has_char (code d) s ≡ false
    → split (code d) (s <> (String.◌∷◌ d "" <> t)) ≡ s ∷ split (code d) t
unfolding split
split-append d String.[] t h =
    rw (nil-append (String.◌∷◌ d "" <> t), cons-append d "" t, same_number (code d), nil-append t)
      refl
split-append d (String.◌∷◌ c s) t h =
    let (other, rest) = none_of (code c == code d) (has_char (code d) s) h in
    rw
      (
        cons-append c s (String.◌∷◌ d "" <> t),
        other,
        split-append d s t rest,
        cons-append c "" s,
        nil-append s,
      )
      refl

-- A text that has no separator is its only part.
pub split_whole : (k : ℕ) (s : String) → has_char k s ≡ false → split k s ≡ s ∷ []
unfolding split
split_whole k String.[] h = refl
split_whole k (String.◌∷◌ c s) h =
    let (other, rest) = none_of (code c == k) (has_char k s) h in
    rw (other, split_whole k s rest, cons-append c "" s, nil-append s) refl
