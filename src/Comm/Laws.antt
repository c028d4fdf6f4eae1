-- ===== src/Comm/Laws.antt =====
-- What a caller may conclude from the answer of `comm`.
use cacic_agente.Base.{
  ◌≡◌, refl, Bool, true, false, String, arith, not, is_some, if◌then◌else◌, ◌&&◌, inl, inr,
  Option-cases, ◌∷◌,
}
use cacic_agente.Json.{Object, has, insert, find}
use cacic_agente.Machine.{Machine, Request, Reply}
use cacic_agente.World.{World, Ensures}
use cacic_agente.Comm.{Comm, comm, send, request, request_url, reply_object}

-- A reply without an error has a "reply" and no "error"; one with an error, the other way round.
pub has-reply_object :
    (m : Machine) (r : Reply m.Bytes)
    → (has "error" (reply_object m r) ≡ is_some r.failure)
      × (has "reply" (reply_object m r) ≡ not (is_some r.failure))
unfolding reply_object insert find
has-reply_object m r = elim (Option-cases r.failure) [
  | inl e ↦ rw (e, reply_object) (refl, refl)
  | inr (s, e) ↦ rw (e, reply_object) (refl, refl)
]

pub send_outcome :
    (m : Machine) (req : Request) (w : World m)
    → Ensures (send m req w) (λ (done, r) v.
      (has "error" r ≡ not done) × (has "reply" r ≡ done) × (v ≡ record w { sent = req ∷ w.sent }))
unfolding send
send_outcome m req w =
    let (e, r) = has-reply_object m (m.post (req ∷ w.sent)) in (ground arith, ground arith, refl)

-- `comm` returns, and says that it went well exactly if what it returns has a "reply", and exactly
-- if that has no "error". Its request goes out once, and nothing else of the world changes; but over
-- SSL with an address that is not valid nothing goes out, and it does not say that it went well.
pub comm_outcome :
    (m : Machine) (c : Comm) (route : String) (o : Object) (ssl : Bool) (w : World m)
    → Ensures (comm m c route o ssl w) (λ (done, r) v.
      (has "error" r ≡ not done)
      × (has "reply" r ≡ done)
      × (if ssl && not (m.valid_url (request_url c route ssl))
          then (done ≡ false) × (v ≡ w)
          else v ≡ record w { sent = request c route o ssl ∷ w.sent }))
unfolding comm insert find
comm_outcome m c route o ssl w = ground (arith, send_outcome m (request c route o ssl) w)

-- The outcome over SSL, as a caller that looks at a success needs it.
abbrev pub Answered :
    {m : Machine} → Comm → String → Object → World m → Bool × Object → World m → Type 0
Answered c route o w (done, r) v =
    (has "error" r ≡ not done)
    × (has "reply" r ≡ done)
    × (v.registry ≡ w.registry)
    × (v.disk ≡ w.disk)
    × (done ≡ true → v.sent ≡ request c route o true ∷ w.sent)

pub comm-Answered :
    (m : Machine) (c : Comm) (route : String) (o : Object) (w : World m)
    → Ensures (comm m c route o true w) (Answered c route o w)
unfolding comm insert find
comm-Answered m c route o w = ground (arith, send_outcome m (request c route o true) w)
