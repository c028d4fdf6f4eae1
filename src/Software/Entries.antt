-- ===== src/Software/Entries.antt =====
-- The shape of what is collected on Linux.
use text.Mathlib.TextEquality.{eq_iff}
use cacic_agente.Base.{
  ◌≡◌, refl, sym, Option-cases, ℕ, Bool, true, false, not, ◌&&◌, ◌||◌, ◌===◌, String, Option, none,
  some, List, [], ◌∷◌, get_elem?, split, is_empty, without_first, contains, arith, Bool-cases, inl,
  inr,
}
use cacic_agente.Json.{Json, str, obj, Object, end, insert, find}
use cacic_agente.Json.Laws.{find-insert}
use cacic_agente.Collection.{M, Exceptions, omits, put, after_colon, is_in}
use cacic_agente.Collection.Laws.{Holds, >>=-Holds, >>=-Holds_any, for_each-Holds}
use cacic_agente.Software.{
  is_wanted, Linux, arch, other_linux, put_marked, put_url, url_of, location_of, whereis,
  put_location, read_debian_line, read_arch_line, debian_program, debian_package, arch_package,
  collect_package, collect_debian, collect_arch, collect_linux,
}

abbrev pub fields : List String
fields = "version" ∷ "description" ∷ "url" ∷ "publisher" ∷ "installDate" ∷ "installLocation" ∷ []

-- The name, and the fields that are not left out for this program
abbrev pub is_allowed : Exceptions → String → String → Bool
is_allowed e name f = f === "name" || (is_in f fields && not (omits e name f))

-- A value that may stand at a field
abbrev pub IsField : Bool → Option Json → Type 0
IsField b none = Unit
IsField b (some (str s)) = b ≡ true
IsField b (some _) = ⊥

-- An object of the program: its name is there, and all its fields are texts that may stand there.
abbrev pub IsProgram : Exceptions → String → Object → Type 0
IsProgram e name o =
    (find "name" o ≡ some (str name)) × ((f : String) → IsField (is_allowed e name f) (find f o))

abbrev pub IsEntry : Exceptions → String → Option Json → Type 0
IsEntry e name none = Unit
IsEntry e name (some (obj o)) = IsProgram e name o
IsEntry e name (some _) = ⊥

insert-IsProgram :
    (e : Exceptions) (name f v : String) (o : Object)
    → (f === "name") ≡ false
    → is_allowed e name f ≡ true
    → IsProgram e name o
    → IsProgram e name (insert f (str v) o)
insert-IsProgram e name f v o n a (h, k) = (
  rw (find-insert "name" f (str v) o) (rw n h),
  λ g. rw (find-insert g f (str v) o) (elim (Bool-cases (f === g)) [
    | inl same ↦ rw same (rw (sym ((eq_iff f g).0 same)) a)
    | inr other ↦ rw other (k g)
  ]),
)

put-IsProgram :
    (e : Exceptions) (name f v : String) (o : Object)
    → (f === "name") ≡ false
    → is_in f fields ≡ true
    → IsProgram e name o
    → IsProgram e name (put e name f (str v) o)
unfolding put
put-IsProgram e name f v o n a h = elim (Bool-cases (omits e name f)) [
  | inl out ↦ rw out h
  | inr there ↦ rw there (insert-IsProgram e name f v o n (ground (arith, a, there)) h)
]

module _ (console : String → String) (e : Exceptions) where
  put_marked-IsProgram :
      (name mark f line : String) (o : Object)
      → (f === "name") ≡ false
      → is_in f fields ≡ true
      → IsProgram e name o
      → Holds (IsProgram e name) (put_marked console e name mark f line o)
  unfolding put_marked
  put_marked-IsProgram name mark f line o n a h =
      elim (Bool-cases (contains line mark && not (omits e name f))) [
        | inl both ↦ elim (Option-cases (after_colon line)) [
          | inl fault ↦ rw (both, fault) tt
          | inr (v, read) ↦
              rw (both, read) (insert-IsProgram e name f v o n (ground (arith, a, both)) h)
        ]
        | inr other ↦ rw other h
      ]

  put_url-IsProgram :
      (name mark line : String) (o : Object)
      → IsProgram e name o
      → IsProgram e name (put_url console e name mark line o)
  unfolding put_url
  put_url-IsProgram name mark line o h = elim (Bool-cases (contains line mark)) [
    | inl marked ↦ rw marked (
        put-IsProgram e name "publisher" (url_of line) (put e name "url" (str (url_of line)) o) refl
          refl (put-IsProgram e name "url" (url_of line) o refl refl h))
    | inr other ↦ rw other h
  ]

  put_location-IsProgram :
      (name program : String) (o : Object)
      → IsProgram e name o
      → Holds (IsProgram e name) (put_location console e name program o)
  unfolding put_location
  put_location-IsProgram name program o h = elim (Bool-cases (omits e name "installLocation")) [
    | inl out ↦ rw out h
    | inr there ↦ elim (Option-cases (location_of console e (console (whereis program)))) [
      | inl fault ↦ rw (there, fault) tt
      | inr (part, read) ↦ elim (Bool-cases (is_empty part)) [
        | inl empty ↦ rw (there, read, empty) h
        | inr filled ↦
            rw (there, read, filled)
              (insert-IsProgram e name "installLocation" (without_first part) o refl
                (ground (arith, there)) h)
      ]
    ]
  ]

  new-IsProgram : (name : String) → IsProgram e name (insert "name" (str name) end)
  unfolding insert find
  new-IsProgram name = (
    refl,
    λ f. elim (Bool-cases ("name" === f)) [
      | inl same ↦ rw same (rw (sym ((eq_iff "name" f).0 same)) refl)
      | inr other ↦ rw other tt
    ],
  )

  read_debian_line-IsProgram :
      (name line : String) (o : Object)
      → IsProgram e name o
      → Holds (IsProgram e name) (read_debian_line console e name line o)
  unfolding read_debian_line
  read_debian_line-IsProgram name line o h =
      let P = IsProgram e name in
      >>=-Holds P P _ _ (put_marked-IsProgram name "Version:" "version" line o refl refl h) (λ a p.
        >>=-Holds P P _ _
          (put_marked-IsProgram name "Description-en:" "description" line a refl refl p)
          (λ b q. put_url-IsProgram name "Homepage:" line b q))

  read_arch_line-IsProgram :
      (name line : String) (o : Object)
      → IsProgram e name o
      → Holds (IsProgram e name) (read_arch_line console e name line o)
  unfolding read_arch_line
  read_arch_line-IsProgram name line o h =
      let P = IsProgram e name in
      >>=-Holds P P _ _ (put_marked-IsProgram name "Version" "version" line o refl refl h) (λ a p.
        >>=-Holds P P _ _ (put_marked-IsProgram name "Description" "description" line a refl refl p)
          (λ b q.
            put_marked-IsProgram name "Install Date" "installDate" line _ refl refl
              (put_url-IsProgram name "URL" line b q)))

  debian_package-IsProgram :
      (name : String) → Holds (IsProgram e name) (debian_package console e name)
  unfolding debian_package
  debian_package-IsProgram name =
      let P = IsProgram e name in
      >>=-Holds P P _ _
        (for_each-Holds P (read_debian_line console e name) (read_debian_line-IsProgram name) _ _
          (new-IsProgram name))
        (λ o h.
          >>=-Holds_any P (debian_program console e name) _
            (λ program. put_location-IsProgram name program o h))

  arch_package-IsProgram : (name : String) → Holds (IsProgram e name) (arch_package console e name)
  unfolding arch_package
  arch_package-IsProgram name =
      let P = IsProgram e name in
      >>=-Holds P P _ _
        (for_each-Holds P (read_arch_line console e name) (read_arch_line-IsProgram name) _ _
          (new-IsProgram name))
        (λ o h. put_location-IsProgram name name o h)

  -- All the programs so far
  abbrev pub AreEntries : Object → Type 0
  AreEntries o = (k : String) → IsEntry e k (find k o)

  insert-AreEntries :
      (name : String) (p o : Object)
      → IsProgram e name p
      → AreEntries o
      → AreEntries (insert name (obj p) o)
  insert-AreEntries name p o q h k =
      rw (find-insert k name (obj p) o) (elim (Bool-cases (name === k)) [
        | inl same ↦ rw same (rw (sym ((eq_iff name k).0 same)) q)
        | inr other ↦ rw other (h k)
      ])

  collect_package-AreEntries :
      (sep : ℕ) (entry : String → M Object)
      → ((n : String) → Holds (IsProgram e n) (entry n))
      → (line : String) (o : Object) → AreEntries o
      → Holds AreEntries (collect_package console e sep entry line o)
  unfolding collect_package
  collect_package-AreEntries sep entry good line o h =
      >>=-Holds_any AreEntries (get_elem? (split sep line) 0) _ (λ name.
        elim (Bool-cases (is_wanted e name)) [
          | inl good_name ↦ rw good_name (
              >>=-Holds (IsProgram e name) AreEntries (entry name) _ (good name)
                (λ p q. insert-AreEntries name p o q h))
          | inr other ↦ rw other h
        ])

  -- Whatever the commands print, if `coletaLinux` returns, each key of what it has collected has an
  -- object with the key as its name, whose other fields are of the six of a program, are not to be
  -- left out for it, and have texts.
  pub collect_linux-AreEntries : (l : Linux) → Holds AreEntries (collect_linux console e l)
  unfolding collect_linux collect_debian collect_arch find
  collect_linux-AreEntries arch =
      for_each-Holds AreEntries _
        (collect_package-AreEntries 32 (arch_package console e) arch_package-IsProgram) _ end
        (λ k. tt)
  collect_linux-AreEntries other_linux =
      for_each-Holds AreEntries _
        (collect_package-AreEntries 9 (debian_package console e) debian_package-IsProgram) _ end
        (λ k. tt)
