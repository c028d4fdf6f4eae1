-- ===== src/Software/Address.antt =====
-- What is read of a line with more than one colon.
use Prim.Native.Char.{code}
use text.Mathlib.TextLemmas.{nil-append, cons-append, append_assoc}
use cacic_agente.Base.{
  ◌≡◌, refl, ℕ, false, String, ◌<>◌, ◌==◌, some, List, [], ◌∷◌, split, cons_head, split-append, ap,
  ◌∙◌, has_char, Bool-cases, inl, inr, if◌then◌else◌,
}
use cacic_agente.Collection.{after_colon}
use cacic_agente.Software.{concat, url_of}

-- A text without a character
unfoldable pub without : ℕ → String → String
without k String.[] = ""
without k (String.◌∷◌ c s) =
    let rest = without k s in if code c == k then rest else String.◌∷◌ c rest

concat-cons_head : (c : String) (ss : List String) → concat (cons_head c ss) ≡ c <> concat ss
concat-cons_head c [] = refl
concat-cons_head c (s ∷ ss) = append_assoc c s (concat ss)

concat-split : (k : ℕ) (s : String) → concat (split k s) ≡ without k s
unfolding split without
concat-split k String.[] = nil-append ""
concat-split k (String.◌∷◌ c s) = elim (Bool-cases (code c == k)) [
  | inl here ↦ rw here (rw (nil-append (concat (split k s))) (concat-split k s))
  | inr other ↦
      rw
        (
          other,
          concat-cons_head (String.◌∷◌ c "") (split k s),
          concat-split k s,
          cons-append c "" (without k s),
          nil-append (without k s),
        )
        refl
]

-- The parts of such a line
split_line :
    (mark a b : String)
    → has_char b':' mark ≡ false
    → has_char b':' a ≡ false
    → split b':' (mark <> (":" <> (" " <> (a <> (":" <> b)))))
      ≡ mark ∷ String.◌∷◌ " " a ∷ split b':' b
split_line mark a b h g =
    split-append ":" mark (" " <> (a <> (":" <> b))) h
    ∙ ap (◌∷◌ mark) (
        rw
          (
            cons-append " " "" (a <> (":" <> b)),
            nil-append (a <> (":" <> b)),
            ← cons-append " " a (":" <> b),
          )
          (split-append ":" (String.◌∷◌ " " a) b g))

-- A line gives the field what stands between its first colon and the second, and the address
-- without all its colons but the first.
pub after_colon-url_of :
    (mark a b : String)
    → has_char b':' mark ≡ false
    → has_char b':' a ≡ false
    → (after_colon (mark <> (":" <> (" " <> (a <> (":" <> b))))) ≡ some a)
      × (url_of (mark <> (":" <> (" " <> (a <> (":" <> b))))) ≡ a <> (":" <> without b':' b))
unfolding after_colon url_of
after_colon-url_of mark a b h g =
    rw (split_line mark a b h g, concat-split b':' b, cons-append " " a (":" <> without b':' b))
      (refl, refl)
