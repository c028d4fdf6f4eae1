-- ===== src/Timer/Clear/Laws.antt =====
-- What the removal of foreign files leaves.
use cacic_agente.Base.{
  ◌≡◌, refl, ◌∙◌, ap, sym, Bool, true, false, ◌&&◌, String, Option, none, some, arith,
}
use cacic_agente.Installer.Folder.{Entries, end, file, folder}
use cacic_agente.Timer.Clear.{
  Fate, spares, enters, deletes, file_fate, folder_fate, Cleared, ok_after_file, ok_after_folder,
  clear_file, clear_folder, clear_entries, remove_foreign_files,
}

abbrev own_file : String → Fate → Entries → Entries
own_file n deletes e = e
own_file n _ e = file n e

-- `c` is the folder as it is and `i` what has to be left in it.
abbrev own_folder : String → Entries → Entries → Fate → Entries → Entries
own_folder n c i spares e = folder n c e
own_folder n c i enters e = folder n i e
own_folder n c i deletes e = e

-- What is the agent's own of the entries of a folder
unfoldable pub own : Entries → Entries
own end = end
own (file n r) = own_file n (file_fate n) (own r)
own (folder n c r) = own_folder n c (own c) (folder_fate n) (own r)

abbrev is_own_fate : Bool → Fate → Bool
is_own_fate b spares = true
is_own_fate b enters = b
is_own_fate b deletes = false

abbrev is_kept_fate : Fate → Bool
is_kept_fate deletes = false
is_kept_fate _ = true

-- Whether nothing else stands there
unfoldable pub is_all_own : Entries → Bool
is_all_own end = true
is_all_own (file n r) = is_kept_fate (file_fate n) && is_all_own r
is_all_own (folder n c r) = is_own_fate (is_all_own c) (folder_fate n) && is_all_own r

-- A call with `retorno` and the entries `e`, and what it has made
unfoldable Told : Bool → Entries → Cleared → Type 0
Told ok e s = (s.ok ≡ (ok && is_all_own s.left)) × (own s.left ≡ own e)

file_step :
    (n : String) (f : Fate) (ok refused : Bool) (r : Entries) (s : Cleared)
    → file_fate n ≡ f
    → Told (ok_after_file f ok refused) r s
    → Told ok (file n r) (clear_file n f ok refused s)
unfolding Told ok_after_file clear_file own is_all_own
file_step n spares ok refused r s q h = ground (arith, q, h)
file_step n enters ok refused r s q h = ground (arith, q, h)
file_step n deletes ok refused r s q h = ground (arith, q, h)

folder_step :
    (n : String) (c : Entries) (f : Fate) (ok : Bool) (inner s : Cleared) (rest : Option Entries)
    (r : Entries)
    → folder_fate n ≡ f
    → Told true c inner
    → Told (ok_after_folder f ok inner rest) r s
    → Told ok (folder n c r) (clear_folder n c f ok inner rest s)
unfolding Told ok_after_folder clear_folder own is_all_own
folder_step n c spares ok inner s rest r q g h = ground (arith, q, g, h)
folder_step n c enters ok inner s rest r q g h = ground (arith, q, g, h)
folder_step n c deletes ok inner s none r q g h = ground (arith, q, g, h)
folder_step n c deletes ok inner s (some x) r q g h = ground (arith, q, g, h)

own_file_all :
    (n : String) (f : Fate) (r : Entries)
    → file_fate n ≡ f
    → own r ≡ r
    → is_kept_fate f ≡ true
    → own (file n r) ≡ file n r
unfolding own
own_file_all n spares r q h k = rw q (ap (file n) h)
own_file_all n enters r q h k = rw q (ap (file n) h)
own_file_all n deletes r q h k = ground (arith, k)

own_folder_all :
    (n : String) (c : Entries) (f : Fate) (r : Entries)
    → folder_fate n ≡ f
    → own r ≡ r
    → (is_all_own c ≡ true → own c ≡ c)
    → is_own_fate (is_all_own c) f ≡ true
    → own (folder n c r) ≡ folder n c r
unfolding own
own_folder_all n c spares r q h g k = rw q (ap (folder n c) h)
own_folder_all n c enters r q h g k = rw q (rw h (rw (g k) refl))
own_folder_all n c deletes r q h g k = ground (arith, k)

-- Where nothing else stands there, what is the agent's own is all of it.
own-is_all_own : (e : Entries) → is_all_own e ≡ true → own e ≡ e
unfolding is_all_own own
own-is_all_own end h = refl
own-is_all_own (file n r) h =
    own_file_all n (file_fate n) r refl (own-is_all_own r (ground (arith, h))) (ground (arith, h))
own-is_all_own (folder n c r) h =
    own_folder_all n c (folder_fate n) r refl (own-is_all_own r (ground (arith, h)))
      (own-is_all_own c) (ground (arith, h))

file_ok :
    (n : String) (f : Fate) (refused : Bool) (s : Bool → Cleared)
    → refused ≡ false
    → (s true).ok ≡ true
    → (clear_file n f true refused (s (ok_after_file f true refused))).ok ≡ true
unfolding clear_file ok_after_file
file_ok n spares refused s q h = h
file_ok n enters refused s q h = h
file_ok n deletes refused s q h = rw q h

folder_ok :
    (n : String) (c : Entries) (f : Fate) (inner : Cleared) (rest : Option Entries)
    (s : Bool → Cleared)
    → inner.ok ≡ true
    → rest ≡ none
    → (s true).ok ≡ true
    → (clear_folder n c f true inner rest (s (ok_after_folder f true inner rest))).ok ≡ true
unfolding clear_folder ok_after_folder
folder_ok n c spares inner rest s g q h = h
folder_ok n c enters inner rest s g q h = rw g h
folder_ok n c deletes inner rest s g q h = rw q h

module _ (refuses : String → Bool) (removes : String → Entries → Option Entries)
    (join : String → String → String) where
  clear_entries-Told :
      (path : String) (e : Entries) (ok : Bool)
      → Told ok e (clear_entries refuses removes join path e ok)
  unfolding clear_entries Told is_all_own
  clear_entries-Told path end ok = (ground arith, refl)
  clear_entries-Told path (file n r) ok =
      file_step n (file_fate n) ok (refuses (join path n)) r _ refl (clear_entries-Told path r _)
  clear_entries-Told path (folder n c r) ok =
      folder_step n c (folder_fate n) ok _ _ (removes (join path n) c) r refl
        (clear_entries-Told (join path n) c true) (clear_entries-Told path r _)

  -- `removeArquivosEstrangeiros` answers true exactly if nothing but the agent's own is left, and
  -- whatever cannot be deleted, all that is the agent's own is left as it was.
  pub remove_foreign_files-own :
      (path : String) (e : Entries)
      → ((remove_foreign_files refuses removes join path e).ok
          ≡ is_all_own (remove_foreign_files refuses removes join path e).left)
        × (own (remove_foreign_files refuses removes join path e).left ≡ own e)
  unfolding Told remove_foreign_files
  remove_foreign_files-own path e = clear_entries-Told path e true

  module _ (yields : (p : String) → refuses p ≡ false)
      (goes : (p : String) (c : Entries) → removes p c ≡ none) where
    clear_entries-ok :
        (path : String) (e : Entries) → (clear_entries refuses removes join path e true).ok ≡ true
    unfolding clear_entries
    clear_entries-ok path end = refl
    clear_entries-ok path (file n r) =
        file_ok n (file_fate n) _ (clear_entries refuses removes join path r) (yields _)
          (clear_entries-ok path r)
    clear_entries-ok path (folder n c r) =
        folder_ok n c (folder_fate n) _ _ (clear_entries refuses removes join path r)
          (clear_entries-ok (join path n) c) (goes _ c) (clear_entries-ok path r)

    -- Where every file and folder can be deleted, `removeArquivosEstrangeiros` leaves exactly what
    -- is the agent's own, and answers true.
    pub remove_foreign_files-all :
        (path : String) (e : Entries)
        → ((remove_foreign_files refuses removes join path e).left ≡ own e)
          × ((remove_foreign_files refuses removes join path e).ok ≡ true)
    unfolding remove_foreign_files Told
    remove_foreign_files-all path e =
        let told = clear_entries-Told path e true in
        let fine = clear_entries-ok path e in
        (sym (own-is_all_own _ (sym told.0 ∙ fine)) ∙ told.1, fine)
