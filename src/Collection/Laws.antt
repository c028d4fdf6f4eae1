-- ===== src/Collection/Laws.antt =====
-- The reading of the text that a command prints.
use Prim.Native.Char.{code}
use cacic_agente.Base.{
  ℕ, ◌≡◌, refl, sym, ◌∙◌, Bool, true, false, ◌||◌, String, ◌==◌, ◌<>◌, without_first, List, [], ◌∷◌,
  split, has_char, arith, Bool-cases, inl, inr, none, some, get_elem?, contains, has_infix,
  has_prefix, codes,
}
use cacic_agente.Collection.{after_colon, M, ◌>>=◌, for_each}

abbrev has_code : ℕ → List ℕ → Bool
has_code k [] = false
has_code k (c ∷ cs) = c == k || has_code k cs

has_code-codes : (k : ℕ) (s : String) → has_code k (codes s) ≡ has_char k s
has_code-codes k String.[] = refl
has_code-codes k (String.◌∷◌ c s) = ground (arith, has_code-codes k s)

has_code-has_prefix :
    (k : ℕ) (xs ys : List ℕ) → has_prefix xs ys ≡ true → has_code k ys ≡ true → has_code k xs ≡ true
has_code-has_prefix k xs [] h g = ground arith
has_code-has_prefix k [] (y ∷ ys) h g = ground arith
has_code-has_prefix k (x ∷ xs) (y ∷ ys) h g = ground (arith, has_code-has_prefix k xs ys)

has_code-has_infix :
    (k : ℕ) (xs ys : List ℕ) → has_infix xs ys ≡ true → has_code k ys ≡ true → has_code k xs ≡ true
has_code-has_infix k [] ys h g = has_code-has_prefix k [] ys h g
has_code-has_infix k (x ∷ xs) ys h g =
    ground (arith, has_code-has_infix k xs ys, has_code-has_prefix k (x ∷ xs) ys)

-- A text that contains another has its characters.
pub has_char-contains :
    (k : ℕ) (s t : String) → contains s t ≡ true → has_char k t ≡ true → has_char k s ≡ true
unfolding contains
has_char-contains k s t h g =
    sym (has_code-codes k s) ∙ has_code-has_infix k (codes s) (codes t) h (has_code-codes k t ∙ g)

split_one : (k : ℕ) (s : String) → (a : String) × (r : List String) × (split k s ≡ a ∷ r)
unfolding split
split_one k String.[] = ("", [], refl)
split_one k (String.◌∷◌ c s) =
    let (a, r, e) = split_one k s in
    elim (Bool-cases (code c == k)) [
      | inl here ↦ ("", split k s, rw here refl)
      | inr other ↦ (String.◌∷◌ c "" <> a, r, rw (other, e) refl)
    ]

-- A text with the separator in it has two parts or more.
pub split_two :
    (k : ℕ) (s : String)
    → has_char k s ≡ true
    → (a b : String) × (r : List String) × (split k s ≡ a ∷ b ∷ r)
unfolding split
split_two k String.[] h = absurd (cc)
split_two k (String.◌∷◌ c s) h = elim (Bool-cases (code c == k)) [
  | inl here ↦ let (a, r, e) = split_one k s in ("", a, r, rw (here, e) refl)
  | inr other ↦
      let (a, b, r, e) = split_two k s (ground (arith, h, other)) in
      (String.◌∷◌ c "" <> a, b, r, rw (other, e) refl)
]

pub after_colon-some :
    (line : String) → has_char b':' line ≡ true → (v : String) × (after_colon line ≡ some v)
unfolding after_colon
after_colon-some line h = let (a, b, r, e) = split_two b':' line h in (without_first b, rw e refl)

pub split_zero : (k : ℕ) (s : String) → (a : String) × (get_elem? (split k s) 0 ≡ some a)
split_zero k s = let (a, r, e) = split_one k s in (a, rw e refl)

-- What holds of the value, if there is one.
abbrev pub Holds {ℓ} : {A : Type 0} → (A → Type ℓ) → M A → Type ℓ
Holds P none = Unit
Holds P (some a) = P a

pub >>=-Holds {ℓ κ} :
    {A B : Type 0} (P : A → Type ℓ) (Q : B → Type κ) (m : M A) (f : A → M B)
    → Holds P m
    → ((a : A) → P a → Holds Q (f a))
    → Holds Q (m >>= f)
>>=-Holds P Q none f h k = tt
>>=-Holds P Q (some a) f h k = k a h

-- A step about whose value nothing has to be known
pub >>=-Holds_any {κ} :
    {A B : Type 0} (Q : B → Type κ) (m : M A) (f : A → M B)
    → ((a : A) → Holds Q (f a))
    → Holds Q (m >>= f)
>>=-Holds_any Q none f k = tt
>>=-Holds_any Q (some a) f k = k a

pub Holds-map {ℓ κ} :
    {A : Type 0} (P : A → Type ℓ) (Q : A → Type κ) (m : M A)
    → ((a : A) → P a → Q a)
    → Holds P m
    → Holds Q m
Holds-map P Q none k h = tt
Holds-map P Q (some a) k h = k a h

-- What each round keeps, the loop keeps.
pub for_each-Holds {ℓ κ} :
    {A : Type ℓ} {S : Type 0} (P : S → Type κ) (f : A → S → M S)
    → ((x : A) (s : S) → P s → Holds P (f x s))
    → (xs : List A) (s : S) → P s
    → Holds P (for_each xs f s)
for_each-Holds P f k [] s h = h
for_each-Holds P f k (x ∷ xs) s h =
    >>=-Holds P P (f x s) (for_each xs f) (k x s h) (for_each-Holds P f k xs)

-- Where each round gives a value, the loop does.
pub for_each_total {ℓ} :
    {A : Type ℓ} {S : Type 0} (f : A → S → M S)
    → ((x : A) (s : S) → (t : S) × (f x s ≡ some t))
    → (xs : List A) (s : S) → (t : S) × (for_each xs f s ≡ some t)
for_each_total f k [] s = (s, refl)
for_each_total f k (x ∷ xs) s =
    let (t, e) = k x s in let (u, d) = for_each_total f k xs t in (u, rw e d)
