-- ===== src/Gercols/Laws/Same.antt =====
-- A collection that is compared with itself.
use text.Mathlib.TextEquality.{eq_iff}
use cacic_agente.Base.{◌≡◌, refl, Bool, true, false, String, Option, some, arith}
use cacic_agente.Json.{
  Json, null, bool, num, frac, str, arr, obj, Items, nil, cons, Object, end, field, find, has,
}
use cacic_agente.Gercols.{compare_pass, compare_collections, Compared}
use cacic_agente.Gercols.Diff.Laws.{Agrees, AgreesItems, AgreesFields, differs_iff}

-- The keys of every object are distinct.
unfoldable mutual
  pub IsProper : Json → Type 0
  IsProper null = Unit
  IsProper (bool x) = Unit
  IsProper (num x) = Unit
  IsProper frac = Unit
  IsProper (str x) = Unit
  IsProper (arr vs) = AreProper vs
  IsProper (obj o) = IsProperObject o

  pub AreProper : Items → Type 0
  AreProper nil = Unit
  AreProper (cons v vs) = IsProper v × AreProper vs

  pub IsProperObject : Object → Type 0
  IsProperObject end = Unit
  IsProperObject (field k v o) = (has k o ≡ false) × IsProper v × IsProperObject o

-- What the first object says, the second says too.
abbrev Extends : Object → Object → Type 0
Extends o p = (k : String) (v : Json) → find k o ≡ some v → find k p ≡ some v

find_here : (k : String) (v : Json) (o : Object) → find k (field k v o) ≡ some v
unfolding find
find_here k v o = ground (arith, eq_iff k k)

Extends-tail :
    (k : String) (v : Json) (o p : Object) → has k o ≡ false → Extends (field k v o) p → Extends o p
unfolding find
Extends-tail k v o p fresh h j w e = h j w (ground (arith, eq_iff k j))

module _ (same : Json → Option Json → Bool) (reflects : (v : Json) → same v (some v) ≡ true) where
  mutual
    unfolding Agrees IsProper

    Agrees-self : (v : Json) → IsProper v → Agrees same v (some v)
    Agrees-self null h = (refl, reflects null)
    Agrees-self (bool x) h = reflects (bool x)
    Agrees-self (num x) h = reflects (num x)
    Agrees-self frac h = reflects frac
    Agrees-self (str x) h = reflects (str x)
    Agrees-self (arr vs) h = items_self vs h
    Agrees-self (obj o) h = fields_self o o h (λ k v e. e)

    items_self : (vs : Items) → AreProper vs → AgreesItems same vs vs
    items_self nil h = tt
    items_self (cons v vs) h = (Agrees-self v h.0, items_self vs h.1)

    fields_self : (o p : Object) → IsProperObject o → Extends o p → AgreesFields same o p
    fields_self end p h e = tt
    fields_self (field k v o) p (fresh, proper, rest) e = (
      λ _. rw (e k v (find_here k v o)) (Agrees-self v proper),
      fields_self o p rest (Extends-tail k v o p fresh e),
    )

  pass_self :
      (first : Bool) (o p : Object) (c : Compared)
      → IsProperObject o
      → Extends o p
      → compare_pass same first o p c ≡ c
  unfolding compare_pass IsProper
  pass_self first end p c h e = refl
  pass_self first (field k v o) p c (fresh, proper, rest) e =
      let there = e k v (find_here k v o) in
      let equal = (differs_iff same v (some v)).1 (Agrees-self v proper) in
      ground (arith, there, equal, pass_self first o p c rest (Extends-tail k v o p fresh e))

  -- Where the equality of values is reflexive and the keys of each object are distinct, the
  -- comparison of a collection with itself finds no difference.
  compare_self : (o : Object) → IsProperObject o → (compare_collections same o o).changed ≡ false
  unfolding compare_collections
  compare_self o h =
      rw (pass_self true o o _ h (λ k v e. e), pass_self false o o _ h (λ k v e. e)) refl
