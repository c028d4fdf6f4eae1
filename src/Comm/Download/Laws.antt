-- ===== src/Comm/Download/Laws.antt =====
-- What a download leaves on the disk.
use cacic_agente.Base.{
  ◌≡◌, refl, true, false, String, ◌===◌, Option, none, some, ◌∷◌, ltb, arith, if◌then◌else◌, clean,
  Bool-cases, Option-cases, inl, inr,
}
use cacic_agente.Machine.{Machine, Request}
use cacic_agente.Machine.Laws.{IsLawful}
use cacic_agente.World.{World, Ensures}
use cacic_agente.Comm.{Comm}
use cacic_agente.Comm.Download.{
  file_download, fetch, refuse, failed, received, target, download_request,
}

fetch_registry :
    (m : Machine) (c : Comm) (req : Request) (file : String) (w : World m)
    → Ensures (fetch m c req file w) (λ _ v. v.registry ≡ w.registry)
unfolding fetch failed
fetch_registry m c req file w = elim (Option-cases (m.get (req ∷ w.sent))) [
  | inl e ↦ rw (e, fetch) refl
  | inr (b, e) ↦ rw (e, fetch) refl
]

-- A download returns and does not write the registry.
pub file_download_registry :
    (m : Machine) (c : Comm) (mode server path dir : String) (w : World m)
    → Ensures (file_download m c mode server path dir w) (λ _ v. v.registry ≡ w.registry)
unfolding file_download refuse
file_download_registry m c mode server path dir w =
    elim (Bool-cases (m.writable w.disk (target path dir))) [
      | inl opens ↦ rw (opens, file_download) (fetch_registry m c _ _ w)
      | inr refused ↦ rw (refused, file_download) refl
    ]

-- A request went out, the last one, and was answered.
abbrev pub WasAnswered : {m : Machine} → World m → World m → Type 0
WasAnswered {m} w v =
    (req : Request) × (b : m.Bytes) × (m.get (req ∷ w.sent) ≡ some b) × (v.sent ≡ req ∷ w.sent)

fetch-WasAnswered :
    (m : Machine) (c : Comm) (req : Request) (file : String) (w : World m)
    → Ensures (fetch m c req file w) (λ r v. r ≡ true → WasAnswered w v)
unfolding fetch failed
fetch-WasAnswered m c req file w = elim (Option-cases (m.get (req ∷ w.sent))) [
  | inl e ↦ rw (e, fetch) (λ t. cc)
  | inr (b, e) ↦ rw (e, fetch) (λ t. (req, b, e, refl))
]

-- A download that succeeds was answered.
pub file_download-WasAnswered :
    (m : Machine) (c : Comm) (mode server path dir : String) (w : World m)
    → Ensures (file_download m c mode server path dir w) (λ r v. r ≡ true → WasAnswered w v)
unfolding file_download refuse
file_download-WasAnswered m c mode server path dir w =
    elim (Bool-cases (m.writable w.disk (target path dir))) [
      | inl opens ↦ rw (opens, file_download) (fetch-WasAnswered m c _ _ w)
      | inr refused ↦ rw (refused, file_download) (λ t. cc)
    ]

module _ (m : Machine) (L : IsLawful m) where
  removed_elsewhere :
      (d : m.Disk) (p q : String)
      → (clean q === clean p) ≡ false
      → m.read (m.remove (m.write d p m.no_bytes) p).1 q ≡ m.read d q
  removed_elsewhere d p q e = elim (Bool-cases (m.remove (m.write d p m.no_bytes) p).0) [
    | inl done ↦
        ground (
          arith,
          L.read-remove_true (m.write d p m.no_bytes) p q done,
          L.read-write d p m.no_bytes q,
        )
    | inr kept ↦ ground (
      arith,
      L.read-remove_false (m.write d p m.no_bytes) p q kept,
      L.read-write d p m.no_bytes q,
    )
  ]

  received_elsewhere :
      (d : m.Disk) (p q : String) (answer : Option m.Bytes)
      → (clean q === clean p) ≡ false
      → m.read (received m d p answer) q ≡ m.read d q
  unfolding received
  received_elsewhere d p q none e = removed_elsewhere d p q e
  received_elsewhere d p q (some b) e = elim (Bool-cases (ltb 0 (m.size b))) [
    | inl some_data ↦ rw some_data (ground (arith, L.read-write d p b q))
    | inr empty ↦ rw empty (removed_elsewhere d p q e)
  ]

  fetched :
      (c : Comm) (file q : String) (req : Request) (w : World m)
      → (clean q === clean file) ≡ false
      → Ensures (fetch m c req file w) (λ _ v.
        (m.read v.disk q ≡ m.read w.disk q) × (v.registry ≡ w.registry) × (v.sent ≡ req ∷ w.sent))
  unfolding fetch
  fetched c file q req w e =
      ground (arith, received_elsewhere w.disk file q (m.get (req ∷ w.sent)) e)

  -- On a lawful machine, a download returns and changes no file but its target; the registry stays
  -- as it was. It sends its one request exactly if the target can be opened for writing.
  pub file_download_elsewhere :
      (c : Comm) (mode server path dir q : String) (w : World m)
      → (clean q === clean (target path dir)) ≡ false
      → Ensures (file_download m c mode server path dir w) (λ _ v.
        (m.read v.disk q ≡ m.read w.disk q)
        × (v.registry ≡ w.registry)
        × (v.sent ≡ (
            if m.writable w.disk (target path dir)
            then download_request c mode server path ∷ w.sent
            else w.sent)))
  unfolding file_download
  file_download_elsewhere c mode server path dir q w e =
      elim (Bool-cases (m.writable w.disk (target path dir))) [
        | inl opens ↦ rw (opens, file_download) (fetched c _ q _ w e)
        | inr refused ↦ rw (refused, file_download) (refl, refl, refl)
      ]
