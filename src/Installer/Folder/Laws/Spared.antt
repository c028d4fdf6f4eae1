-- ===== src/Installer/Folder/Laws/Spared.antt =====
-- What deleting a folder spares.
use text.Mathlib.TextEquality.{eq_iff}
use cacic_agente.Base.{
  ◌≡◌, refl, Bool, true, false, ◌&&◌, ◌||◌, String, ◌===◌, Option, none, some, List, [], ◌∷◌, arith,
}
use cacic_agente.Installer.Folder.{Entries, end, file, folder, is_end, del_folder}
use cacic_agente.Installer.Folder.Laws.{is_nil, is_in, prune, del_folder-prune}

-- Whether an entry stands at a path of names.
unfoldable pub stands : Entries → List String → Bool
stands end p = false
stands (file m r) [] = false
stands (file m r) (n ∷ p) = (n === m && is_nil p) || stands r (n ∷ p)
stands (folder m c r) [] = false
stands (folder m c r) (n ∷ p) = (n === m && (is_nil p || stands c p)) || stands r (n ∷ p)

abbrev pub stands_in : Option Entries → List String → Bool
stands_in none p = false
stands_in (some c) p = stands c p

-- Whether the last name of a path is an exception.
abbrev pub ends_in : List String → List String → Bool
ends_in names [] = false
ends_in names (n ∷ []) = is_in n names
ends_in names (n ∷ k ∷ p) = ends_in names (k ∷ p)

stands-is_end : (c : Entries) (p : List String) → stands c p ≡ true → is_end c ≡ false
unfolding stands
stands-is_end end p h = ground arith
stands-is_end (file n r) p h = refl
stands-is_end (folder n c r) p h = refl

module _ (names : List String) (refuses : String → Bool) (join : String → String → String) where
  prune-stands :
      (path : String) (c : Entries) (p : List String)
      → ends_in names p ≡ true
      → stands c p ≡ true
      → stands (prune names refuses join path c) p ≡ true
  unfolding prune stands
  prune-stands path end p e h = ground arith
  prune-stands path (file m r) [] e h = ground arith
  prune-stands path (file m r) (n ∷ []) e h =
      ground (arith, eq_iff n m, prune-stands path r (n ∷ []) e)
  prune-stands path (file m r) (n ∷ k ∷ p) e h = ground (arith, prune-stands path r (n ∷ k ∷ p) e)
  prune-stands path (folder m c r) [] e h = ground arith
  prune-stands path (folder m c r) (n ∷ []) e h =
      ground (arith, eq_iff n m, prune-stands path r (n ∷ []) e)
  prune-stands path (folder m c r) (n ∷ k ∷ p) e h = ground (
    arith,
    prune-stands path r (n ∷ k ∷ p) e,
    prune-stands (join path m) c (k ∷ p) e,
    stands-is_end (prune names refuses join (join path m) c) (k ∷ p),
  )

  -- Where the last name of the path of an entry is an exception, the entry is still there after
  -- `delFolder`, with all the folders above it.
  del_folder-Spared :
      (path : String) (c : Entries) (p : List String)
      → ends_in names p ≡ true
      → stands c p ≡ true
      → stands_in (del_folder names refuses join path (some c)).0 p ≡ true
  del_folder-Spared path c p e h =
      rw (del_folder-prune names refuses join path c) (
        ground
          (arith, prune-stands path c p e h, stands-is_end (prune names refuses join path c) p))
