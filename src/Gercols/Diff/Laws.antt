-- ===== src/Gercols/Diff/Laws.antt =====
-- When two values of a collection count as the same.
use cacic_agente.Base.{◌≡◌, refl, ◌↔◌, Bool, true, false, Option, none, some, arith}
use cacic_agente.Json.{
  Json, null, bool, num, frac, str, arr, obj, Items, nil, cons, Object, end, field, value,
}
use cacic_agente.Gercols.Diff.{
  differs, differing_items, differing_fields, is_volatile, fields_of, items_of, first_of, rest_of,
}

module _ (same : Json → Option Json → Bool) where
  -- Every leaf of the first value stands in the second at the same place with the same value; but
  -- what stands under a volatile key does not matter.
  unfoldable mutual
    pub Agrees : Json → Option Json → Type 0
    Agrees null b = (b ≡ some null) × (same null b ≡ true)
    Agrees (bool x) b = same (bool x) b ≡ true
    Agrees (num x) b = same (num x) b ≡ true
    Agrees frac b = same frac b ≡ true
    Agrees (str x) b = same (str x) b ≡ true
    Agrees (arr vs) b = AgreesItems vs (items_of b)
    Agrees (obj o) b = AgreesFields o (fields_of b)

    pub AgreesItems : Items → Items → Type 0
    AgreesItems nil ws = Unit
    AgreesItems (cons v vs) ws = Agrees v (first_of ws) × AgreesItems vs (rest_of ws)

    pub AgreesFields : Object → Object → Type 0
    AgreesFields end p = Unit
    AgreesFields (field k v o) p =
        (is_volatile k ≡ false → Agrees v (some (value k p))) × AgreesFields o p

  null_agrees :
      (b : Option Json) → (differs same null b ≡ none) ↔ ((b ≡ some null) × (same null b ≡ true))
  unfolding differs
  null_agrees none = (λ e. cc, λ e. cc)
  null_agrees (some null) = ground arith
  null_agrees (some w) = (λ e. cc, λ e. cc)

  mutual
    unfolding differs Agrees

    differs-Agrees : (v : Json) (b : Option Json) → (differs same v b ≡ none) ↔ Agrees v b
    differs-Agrees null b = null_agrees b
    differs-Agrees (bool x) b = ground arith
    differs-Agrees (num x) b = ground arith
    differs-Agrees frac b = ground arith
    differs-Agrees (str x) b = ground arith
    differs-Agrees (arr vs) b = ground (arith, items-Agrees vs (items_of b))
    differs-Agrees (obj o) b = ground (arith, fields-Agrees o (fields_of b))

    items-Agrees : (vs ws : Items) → ((differing_items same vs ws).0 ≡ false) ↔ AgreesItems vs ws
    items-Agrees nil ws = (λ e. tt, λ e. refl)
    items-Agrees (cons v vs) ws =
        ground (arith, differs-Agrees v (first_of ws), items-Agrees vs (rest_of ws))

    fields-Agrees : (o p : Object) → ((differing_fields same o p).0 ≡ false) ↔ AgreesFields o p
    fields-Agrees end p = (λ e. tt, λ e. refl)
    fields-Agrees (field k v o) p =
        ground (arith, differs-Agrees v (some (value k p)), fields-Agrees o p)

  -- `percorreColeta` finds no difference exactly if the two values agree: each leaf of the first one
  -- that is not under a volatile key stands in the second at its place, with the same value, where a
  -- key that is not there stands for null.
  pub differs_iff : (v : Json) (b : Option Json) → (differs same v b ≡ none) ↔ Agrees v b
  differs_iff v b = differs-Agrees v b
