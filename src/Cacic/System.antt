-- ===== src/Cacic/System.antt =====
-- `CCacic::findProc`, `CCacic::verificarCacicInstalado` and `CCacic::genRandomString`.
use text.Mathlib.TextEquality.{eq_iff}
use cacic_agente.Base.{
  ℕ, zero, suc, ◌+◌, ◌%◌, ◌<◌, ◌≤◌, ◌≡◌, refl, ◌↔◌, ℤ, pos, negsuc, Bool, true, false, not, String,
  ◌===◌, Option, none, some, List, [], ◌∷◌, codes, ◌⊎◌, inl, inr, ◌∙◌, ◌≢◌, if◌then◌else◌, length,
  get_elem?, is_empty, keep, split, trimmed, arith,
}
use cacic_agente.Machine.{Stat, missing, malformed, named}

-- `CCacic::findProc` over the folders of /proc
unfoldable pub find_proc : String → List (ℤ × Stat) → Bool
find_proc name [] = false
find_proc name ((negsuc pid, s) ∷ ps) = find_proc name ps
find_proc name ((pos pid, missing) ∷ ps) = find_proc name ps
find_proc name ((pos pid, malformed) ∷ ps) = false
find_proc name ((pos pid, named other) ∷ ps) =
    let rest = find_proc name ps in if other === name then true else rest

-- `CCacic::verificarCacicInstalado` on Linux, from what `service cacic3 status` prints. `none` is
-- the read of the part before the last where there is one part only.
abbrev installed_status : List String → Option Bool
installed_status [] = some false
installed_status (s ∷ []) = none
installed_status (s ∷ t ∷ []) =
    if s === "unrecognized" then some false else if s === "not" then some false else some true
installed_status (s ∷ t ∷ u ∷ ss) = installed_status (t ∷ u ∷ ss)

unfoldable pub is_installed_linux : String → Option Bool
is_installed_linux output =
    installed_status (keep (λ s. not (is_empty s)) (split b' ' (trimmed output)))

-- A write to the cell of a buffer. `none` is a write out of its bounds.
pub write_cell : List ℕ → ℕ → ℕ → Option (List ℕ)
write_cell [] i v = none
write_cell (c ∷ cs) zero v = some (v ∷ cs)
write_cell (c ∷ cs) (suc i) v = elim (write_cell cs i v) [ none ↦ none | some r ↦ some (c ∷ r) ]

-- The letters of `alphanum`, without the final zero that `sizeof` counts.
abbrev alphanum : List ℕ
alphanum = codes "0123456789ABCDEFGHIJKLMNOPQRSTUVWXYZabcdefghijklmnopqrstuvwxyz"

-- The loop `for (i = 0; i < len; ++i)`, with the rounds left, `i`, and the values of `rand()`.
pub fill : ℕ → ℕ → (ℕ → ℕ) → List ℕ → Option (List ℕ)
unfolding write_cell
fill zero i rand buf = some buf
fill (suc n) i rand buf = elim (get_elem? alphanum (rand i % 62)) [
  | none ↦ none
  | some c ↦ elim (write_cell buf i c) [ none ↦ none | some r ↦ fill n (i + 1) rand r ]
]

-- `CCacic::genRandomString(len)` on what `malloc(len)` returned: the fill, and `s[len] = 0`.
unfoldable pub random_string : (ℕ → ℕ) → List ℕ → Option (List ℕ)
unfolding fill write_cell
random_string rand buf = elim (fill (length buf) 0 rand buf) [
  | none ↦ none
  | some r ↦ write_cell r (length buf) 0
]

-- Some process of the list is named so.
abbrev pub Runs : String → List (ℤ × Stat) → Type 0
Runs name [] = ⊥
Runs name ((pos pid, named other) ∷ ps) = (other ≡ name) ⊎ Runs name ps
Runs name (_ ∷ ps) = Runs name ps

-- Every `stat` file that can be opened begins as it should.
abbrev pub AllNamed : List (ℤ × Stat) → Type 0
AllNamed [] = Unit
AllNamed ((pos pid, malformed) ∷ ps) = ⊥
AllNamed (_ ∷ ps) = AllNamed ps

find_proc-Runs : (name : String) (ps : List (ℤ × Stat)) → find_proc name ps ≡ true → Runs name ps
unfolding find_proc
find_proc-Runs name [] h = cc
find_proc-Runs name ((negsuc pid, missing) ∷ ps) h = find_proc-Runs name ps h
find_proc-Runs name ((negsuc pid, malformed) ∷ ps) h = find_proc-Runs name ps h
find_proc-Runs name ((negsuc pid, named other) ∷ ps) h = find_proc-Runs name ps h
find_proc-Runs name ((pos pid, missing) ∷ ps) h = find_proc-Runs name ps h
find_proc-Runs name ((pos pid, malformed) ∷ ps) h = cc
find_proc-Runs name ((pos pid, named other) ∷ ps) h =
    ground (arith, eq_iff other name, find_proc-Runs name ps)

Runs-find_proc :
    (name : String) (ps : List (ℤ × Stat)) → AllNamed ps → Runs name ps → find_proc name ps ≡ true
unfolding find_proc
Runs-find_proc name [] a r = absurd r
Runs-find_proc name ((negsuc pid, missing) ∷ ps) a r = Runs-find_proc name ps a r
Runs-find_proc name ((negsuc pid, malformed) ∷ ps) a r = Runs-find_proc name ps a r
Runs-find_proc name ((negsuc pid, named other) ∷ ps) a r = Runs-find_proc name ps a r
Runs-find_proc name ((pos pid, missing) ∷ ps) a r = Runs-find_proc name ps a r
Runs-find_proc name ((pos pid, malformed) ∷ ps) a r = absurd a
Runs-find_proc name ((pos pid, named other) ∷ ps) a (inl e) = ground (arith, eq_iff other name)
Runs-find_proc name ((pos pid, named other) ∷ ps) a (inr r) =
    ground (arith, eq_iff other name, Runs-find_proc name ps a r)

-- Where every `stat` file that opens is well formed, the search finds exactly the names that run.
pub find_proc_iff :
    (name : String) (ps : List (ℤ × Stat)) → AllNamed ps → (find_proc name ps ≡ true) ↔ Runs name ps
find_proc_iff name ps a = (find_proc-Runs name ps, Runs-find_proc name ps a)

write_cell-end : (buf : List ℕ) (v : ℕ) → write_cell buf (length buf) v ≡ none
unfolding write_cell
write_cell-end [] v = refl
write_cell-end (c ∷ cs) v = rw (write_cell-end cs v)

write_cell_past : (buf : List ℕ) (i v : ℕ) → length buf ≡ i → write_cell buf i v ≡ none
write_cell_past buf i v e = rw (← e) (write_cell-end buf v)

length-write_cell :
    (buf : List ℕ) (i v : ℕ)
    → i < length buf
    → (r : List ℕ) × (write_cell buf i v ≡ some r) × (length r ≡ length buf)
unfolding write_cell
length-write_cell [] i v h = elim h [ ]
length-write_cell (c ∷ cs) zero v h = (v ∷ cs, refl, refl)
length-write_cell (c ∷ cs) (suc i) v h =
    let (r, e, n) = length-write_cell cs i v (omega arith) in (c ∷ r, rw e, omega arith)

get_elem?-some : (xs : List ℕ) (i : ℕ) → i < length xs → (c : ℕ) × (get_elem? xs i ≡ some c)
get_elem?-some [] i h = elim h [ ]
get_elem?-some (x ∷ xs) zero h = (x, refl)
get_elem?-some (x ∷ xs) (suc i) h = get_elem?-some xs i (omega arith)

fill_step :
    (n i : ℕ) (rand : ℕ → ℕ) (buf : List ℕ) (c : ℕ) (r : List ℕ)
    → get_elem? alphanum (rand i % 62) ≡ some c
    → write_cell buf i c ≡ some r
    → fill (suc n) i rand buf ≡ fill n (i + 1) rand r
unfolding fill
fill_step n i rand buf c r e f = rw (e, fill) (rw f)

length-fill :
    (n i : ℕ) (rand : ℕ → ℕ) (buf : List ℕ)
    → i + n ≤ length buf
    → (r : List ℕ) × (fill n i rand buf ≡ some r) × (length r ≡ length buf)
unfolding fill
length-fill zero i rand buf h = (buf, refl, refl)
length-fill (suc n) i rand buf h =
    let (c, e) = get_elem?-some alphanum (rand i % 62) (omega arith) in
    let (s, f, k) = length-write_cell buf i c (omega arith) in
    let (r, g, l) = length-fill n (i + 1) rand s (omega arith) in
    (r, fill_step n i rand buf c s e f ∙ g, l ∙ k)

-- Whatever the length and the random numbers, every write of the loop lies in the buffer of
-- `malloc(len)`, and the write of the final zero lies out of it.
pub random_string_overflows :
    (rand : ℕ → ℕ) (buf : List ℕ)
    → (fill (length buf) 0 rand buf ≢ none) × (random_string rand buf ≡ none)
unfolding random_string
random_string_overflows rand buf =
    let (r, e, n) = length-fill (length buf) 0 rand buf (omega arith) in
    (ground arith, rw (e, random_string) (write_cell_past r (length buf) 0 n))
