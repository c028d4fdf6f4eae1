-- ===== src/Machine/Laws.antt =====
-- What the agent relies on, as the documentation of Qt states it.
use cacic_agente.Base.{◌≡◌, true, false, String, ◌===◌, none, some, if◌then◌else◌, clean}
use cacic_agente.Json.{Object}
use cacic_agente.Machine.{Machine}

pub record IsLawful (m : Machine) : Type 0 where
  -- A file that was written is there, with what was written. Paths name one file if they differ in
  -- repeated slashes only.
  pub read-write :
      (d : m.Disk) (p : String) (b : m.Bytes) (q : String)
      → m.read (m.write d p b) q ≡ (if clean q === clean p then some b else m.read d q)
  -- A file that was removed is gone. One that was not is unchanged.
  pub read-remove_true :
      (d : m.Disk) (p q : String)
      → (m.remove d p).0 ≡ true
      → m.read (m.remove d p).1 q ≡ (if clean q === clean p then none else m.read d q)
  pub read-remove_false :
      (d : m.Disk) (p q : String)
      → (m.remove d p).0 ≡ false
      → m.read (m.remove d p).1 q ≡ m.read d q
  -- A copy does not overwrite; one that fails changes nothing.
  pub read-copy_true :
      (d : m.Disk) (p t q : String)
      → (m.copy d p t).0 ≡ true
      → m.read (m.copy d p t).1 q ≡ (if clean q === clean t then m.read d p else m.read d q)
  pub read-copy_false :
      (d : m.Disk) (p t q : String)
      → (m.copy d p t).0 ≡ false
      → m.read (m.copy d p t).1 q ≡ m.read d q
  -- A JSON text reads back as what was written.
  pub decode-encode : (o : Object) → m.decode (m.encode o) ≡ some o
