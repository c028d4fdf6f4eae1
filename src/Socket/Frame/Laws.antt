-- ===== src/Socket/Frame/Laws.antt =====
-- What is written to a socket is read from it.
use Prim.Native.Char.{code}
use text.Mathlib.TextLemmas.{nil-append, cons-append, append_assoc}
use cacic_agente.Base.{
  has_char, none_of, split-append, ℕ, suc, ◌+◌, ◌≡◌, refl, sym, ap, false, String, ◌<>◌, ◌==◌,
  Option, some, List, [], ◌∷◌, ℤ, pos, length, split, codes, arith, Bool-cases, inl, inr,
}
use cacic_agente.Socket.Frame.{left, skip, mid, read_line, format_data, message_of, msg_end}

skip-append : (s t : String) → skip (length (codes s)) (s <> t) ≡ t
unfolding skip
skip-append String.[] t = nil-append t
skip-append (String.◌∷◌ c s) t = rw (cons-append c s t) (skip-append s t)

left-append : (s t : String) → left (length (codes s)) (s <> t) ≡ s
unfolding left
left-append String.[] t = refl
left-append (String.◌∷◌ c s) t = rw (cons-append c s t) (ap (String.◌∷◌ c) (left-append s t))

-- A text is read up to the end of its line, and the rest is kept.
read_line-append :
    (s more : String)
    → has_char 10 s ≡ false
    → read_line (s <> (msg_end <> more)) ≡ (s <> msg_end, more)
unfolding read_line
read_line-append String.[] more h =
    rw
      (
        nil-append (msg_end <> more),
        cons-append "\r" "\n" more,
        cons-append "\n" "" more,
        nil-append more,
      )
      refl
read_line-append (String.◌∷◌ c s) more h =
    let (other, rest) = none_of (code c == 10) (has_char 10 s) h in
    rw
      (
        cons-append c s (msg_end <> more),
        other,
        read_line-append s more rest,
        cons-append c s msg_end,
      )
      refl

split-parts : (s : String) → (p : String) × (ps : List String) × (split 32 s ≡ p ∷ ps)
unfolding split
split-parts String.[] = ("", [], refl)
split-parts (String.◌∷◌ c s) =
    let (p, ps, e) = split-parts s in
    elim (Bool-cases (code c == 32)) [
      | inl here ↦ ("", split 32 s, rw here refl)
      | inr other ↦ (String.◌∷◌ c "" <> p, ps, rw (other, e) refl)
    ]

suc_add : (n : ℕ) → suc n + 1 ≡ suc (n + 1)
suc_add n = omega arith

skip-next : (s t : String) → skip (length (codes s) + 1) (s <> (" " <> t)) ≡ t
unfolding skip
skip-next String.[] t = rw (nil-append (" " <> t), cons-append " " "" t, nil-append t) refl
skip-next (String.◌∷◌ c s) t =
    rw (cons-append c s (" " <> t), suc_add (length (codes s)), skip-next s t) refl

has_char-append :
    (k : ℕ) (s t : String)
    → has_char k s ≡ false
    → has_char k t ≡ false
    → has_char k (s <> t) ≡ false
has_char-append k String.[] t a b = rw (nil-append t) b
has_char-append k (String.◌∷◌ c s) t a b =
    let (other, rest) = none_of (code c == k) (has_char k s) a in
    rw (cons-append c s t, other, has_char-append k s t rest b) refl

module _ (number : ℕ → String) (parse : String → Option ℤ) where
  whole :
      (text : String) (n : ℕ)
      → (number n <> (" " <> text)) <> msg_end ≡ format_data number parse text n
  unfolding format_data
  whole text n =
      rw (append_assoc (number n) (" " <> text) msg_end, append_assoc " " text msg_end) refl

  framed :
      (text more : String) (n : ℕ)
      → format_data number parse text n <> more ≡ (number n <> (" " <> text)) <> (msg_end <> more)
  framed text more n =
      rw (sym (whole text n), append_assoc (number n <> (" " <> text)) msg_end more) refl

  pub message_of-format_data :
      (text : String) (n : ℕ)
      → has_char 32 (number n) ≡ false
      → parse (number n) ≡ some (pos n)
      → message_of number parse (format_data number parse text n) ≡ some (left n (text <> msg_end))
  unfolding message_of format_data mid
  message_of-format_data text n plain reads =
      let (p, ps, e) = split-parts (text <> msg_end) in
      rw
        (
          split-append " " (number n) (text <> msg_end) plain,
          e,
          reads,
          skip-next (number n) (text <> msg_end),
        )
        refl

  -- A text without an end of line that is written with its length is the message that the other
  -- side reads, and what follows it is still to be read; where `toInt` reads the length back, which
  -- has no space and no end of line.
  pub read_line-format_data :
      (text more : String)
      → has_char 10 text ≡ false
      → let n = length (codes text) in
        has_char 32 (number n) ≡ false
        → has_char 10 (number n) ≡ false
        → parse (number n) ≡ some (pos n)
        → let (line, rest) = read_line (format_data number parse text n <> more) in
          (message_of number parse line ≡ some text) × (rest ≡ more)
  unfolding format_data
  read_line-format_data text more h plain one reads =
      let n = length (codes text) in
      rw
        (
          framed text more n,
          read_line-append (number n <> (" " <> text)) more (
              has_char-append 10 (number n) (" " <> text) one (has_char-append 10 " " text refl h)),
          whole text n,
          message_of-format_data text n plain reads,
          left-append text msg_end,
        )
        (refl, refl)
