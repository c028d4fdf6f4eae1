-- ===== src/Installer/Folder/Laws.antt =====
-- What deleting a folder leaves.
pub mod Spared
use cacic_agente.Base.{
  ◌≡◌, refl, Bool, true, false, ◌&&◌, ◌||◌, not, String, ◌===◌, Option, none, some, List, [], ◌∷◌,
  if◌then◌else◌, arith, Bool-cases, is_some, ◌⊎◌, inl, inr,
}
use cacic_agente.Installer.Folder.{
  Entries, end, file, folder, is_end, scan, Sweep, Gone, sweep, sweep_file, sweep_folder,
  close_folder, del_folder,
}

abbrev pub is_in : String → List String → Bool
is_in n [] = false
is_in n (e ∷ es) = n === e || is_in n es

abbrev pub is_nil : List String → Bool
is_nil [] = true
is_nil (e ∷ es) = false

scan-false : (es : List String) (n : String) → scan es n false ≡ is_in n es
scan-false [] n = refl
scan-false (e ∷ es) n = ground (arith, scan-false es n)

-- The flag that is left from before counts only for an empty list.
scan-is_in :
    (es : List String) (n : String) (b : Bool) → (b && is_nil es) ≡ false → scan es n b ≡ is_in n es
scan-is_in [] n b h = ground arith
scan-is_in (e ∷ es) n b h = ground (arith, scan-false es n)

is_in-is_nil : (n : String) (es : List String) → (is_in n es && is_nil es) ≡ false
is_in-is_nil n [] = refl
is_in-is_nil n (e ∷ es) = ground arith

-- What holds of a loop that starts with the flag `b` and has to leave `e`: a flag that is set later
-- means that something is left, so nothing is lost when the folder is not removed.
unfoldable Swept : List String → Entries → Bool → Sweep → Type 0
Swept names e b s =
    (s.left ≡ e)
    × (s.ok ≡ true)
    × ((s.found && is_nil names) ≡ false)
    × ((s.found && is_end s.left) ≡ true → b ≡ true)

-- What has to be left of a folder with `e` in it
abbrev pub rest_of_folder : Bool → Entries → Option Entries
rest_of_folder refused e = if is_end e && not refused then none else some e

unfoldable Closed : List String → Option Entries → Gone → Type 0
Closed names e g =
    (g.remains ≡ e)
    × (g.ok ≡ true)
    × ((g.found && is_nil names) ≡ false)
    × (g.found ≡ true → is_some e ≡ true)

abbrev pub put_back : String → Option Entries → Entries → Entries
put_back n none e = e
put_back n (some c) e = folder n c e

module _ (names : List String) where
  sweep_file-Swept :
      (n : String) (e : Entries) (b f refused : Bool) (s : Sweep)
      → Swept names e f s
      → Swept names (if f || refused then file n e else e) b (sweep_file n f refused s)
  unfolding Swept sweep_file
  sweep_file-Swept n e b true refused s h = ground (arith, h)
  sweep_file-Swept n e b false true s h = ground (arith, h)
  sweep_file-Swept n e b false false s h = ground (arith, h)

  close_folder-Closed :
      (e : Entries) (refused : Bool) (s : Sweep)
      → Swept names e false s
      → Closed names (rest_of_folder refused e) (close_folder refused s)
  unfolding Swept Closed close_folder
  close_folder-Closed e refused s h = ground (arith, h)

  spared_folder-Swept :
      (n : String) (c e : Entries) (b : Bool) (inner : Gone) (s : Sweep)
      → Swept names e true s
      → Swept names (folder n c e) b (sweep_folder n c true true inner s)
  unfolding Swept sweep_folder
  spared_folder-Swept n c e b inner s h = ground (arith, h)

  entered_folder-Swept :
      (n : String) (c e : Entries) (i : Option Entries) (b : Bool) (inner : Gone) (s : Sweep)
      → Closed names i inner
      → Swept names e inner.found s
      → Swept names (put_back n i e) b (sweep_folder n c false true inner s)
  unfolding Swept Closed sweep_folder
  entered_folder-Swept n c e none b inner s g h = ground (arith, g, h)
  entered_folder-Swept n c e (some x) b inner s g h = ground (arith, g, h)

module _ (names : List String) (refuses : String → Bool) (join : String → String → String) where
  -- What has to be left: an entry that is an exception as it is, another file only if it cannot be
  -- removed, and another folder if something is left of it or it cannot be removed.
  unfoldable pub prune : String → Entries → Entries
  prune path end = end
  prune path (file n r) =
      let rest = prune path r in
      if is_in n names || refuses (join path n) then file n rest else rest
  prune path (folder n c r) =
      let inner = rest_of_folder (refuses (join path n)) (prune (join path n) c) in
      let rest = prune path r in if is_in n names then folder n c rest else put_back n inner rest

  folder-Swept :
      (path n : String) (c e : Entries) (i : Option Entries) (b flag : Bool) (inner : Gone)
      (r : Entries)
      → Closed names i inner
      → ((f : Bool)
          → (f && is_nil names) ≡ false
          → Swept names e f (sweep names refuses join path r true f))
      → (flag && is_nil names) ≡ false
      → Swept names (if flag then folder n c e else put_back n i e) b (
          sweep_folder n c flag true inner (
            sweep names refuses join path r
              (if flag then true else inner.ok)
              (if flag then true else inner.found)))
  unfolding Closed sweep_folder
  folder-Swept path n c e i b true inner r g k h =
      spared_folder-Swept names n c e b inner _ (k true h)
  folder-Swept path n c e i b false inner r (left, fine, unset, kept) k h =
      rw fine (
        entered_folder-Swept names n c e i b inner _ (left, fine, unset, kept)
          (k inner.found unset))

  sweep-Swept :
      (path : String) (c : Entries) (b : Bool)
      → (b && is_nil names) ≡ false
      → Swept names (prune path c) b (sweep names refuses join path c true b)
  unfolding sweep prune Swept
  sweep-Swept path end b h = ground (arith, h)
  sweep-Swept path (file n r) b h = rw (scan-is_in names n b h) (
      sweep_file-Swept names n (prune path r) b (is_in n names) (refuses (join path n)) _
        (sweep-Swept path r (is_in n names) (is_in-is_nil n names)))
  sweep-Swept path (folder n c r) b h = rw (scan-is_in names n b h) (
      folder-Swept path n c (prune path r) _ b (is_in n names) _ r
        (close_folder-Closed names (prune (join path n) c) (refuses (join path n)) _
          (sweep-Swept (join path n) c false refl))
        (λ f. sweep-Swept path r f) (is_in-is_nil n names))

  -- `InstallCacicSA::delFolder` on a folder leaves what the specification says, whatever the order
  -- of the entries and although one flag serves all the levels, and answers true.
  pub del_folder-prune :
      (path : String) (c : Entries)
      → del_folder names refuses join path (some c)
        ≡ (rest_of_folder (refuses path) (prune path c), true)
  unfolding del_folder Closed
  del_folder-prune path c =
      let (left, fine, unset, some_left) =
        close_folder-Closed names (prune path c) (refuses path) _ (sweep-Swept path c false refl) in
      rw (left, fine) refl
