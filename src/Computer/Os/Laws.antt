-- ===== src/Computer/Os/Laws.antt =====
-- The name and the version that the release files give.
use Prim.Native.Char.{code}
use text.Mathlib.TextLemmas.{nil-append, cons-append}
use cacic_agente.Base.{
  arith, ◌-◌, ℕ, suc, ◌≡◌, refl, ◌∙◌, false, String, ◌<>◌, ◌==◌, some, has_char, none_of,
}
use cacic_agente.Computer.Os.{index_of, index_from, left, quoted_name}

abbrev size : String → ℕ
size String.[] = 0
size (String.◌∷◌ c s) = suc (size s)

-- The end of the first quoted part of a text
index_of-append :
    (d s : String) → has_char b'"' d ≡ false → index_of b'"' (d <> ("\"" <> s)) ≡ some (size d)
unfolding index_of
index_of-append String.[] s h = rw (nil-append ("\"" <> s), cons-append "\"" "" s) refl
index_of-append (String.◌∷◌ c d) s h =
    let (other, rest) = none_of (code c == b'"') (has_char b'"' d) h in
    rw (cons-append c d ("\"" <> s), other, index_of-append d s rest) refl

left-append : (d s : String) → left (size d) (d <> s) ≡ d
unfolding left
left-append String.[] s = refl
left-append (String.◌∷◌ c d) s = rw (cons-append c d s, left-append d s) refl

less_one : (n : ℕ) → suc n - 1 ≡ n
less_one n = omega arith

name_in_quotes :
    (t : String) (n : ℕ) → index_of b'"' t ≡ some n → quoted_name (String.◌∷◌ "\"" t) ≡ left n t
unfolding quoted_name index_from index_of
name_in_quotes t n h = rw (quoted_name, h, less_one n) refl

-- The name of a distribution that stands in quotes is what stands between them.
pub quoted_name-append :
    (d s : String) → has_char b'"' d ≡ false → quoted_name ("\"" <> (d <> ("\"" <> s))) ≡ d
quoted_name-append d s h =
    let quoted = d <> ("\"" <> s) in
    rw (cons-append "\"" "" quoted, nil-append quoted)
      (name_in_quotes quoted (size d) (index_of-append d s h) ∙ left-append d ("\"" <> s))
