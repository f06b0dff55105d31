-- ===== src/Hash/Order.antt =====
-- The canonical text of a value and the order in which its keys were written: src/lib/hash.ts.
use sisu_kodo.Prelude.{String, true, false, List, ◌≡◌, refl, ap, ◌∙◌, ◌⊎◌, inl, inr, sym}
use sisu_kodo.Prelude.Json.{Json, arr, obj, Items, nil, cons, Fields, end, field}
use sisu_kodo.Prelude.Sorting.{sort_by, insert_sorted, insert_sorted_comm}
use sisu_kodo.Hash.{
  Platform, canonicalize, canonicalize_items, canonicalize_entries, key_le, sha256,
}

module _ (p : Platform) where
  -- The order of two keys is strict, one way or the other.
  abbrev pub Apart : String → String → Type 0
  Apart k j =
      ((p.locale_le k j ≡ true) × (p.locale_le j k ≡ false))
      ⊎ ((p.locale_le j k ≡ true) × (p.locale_le k j ≡ false))

  -- The same value, with the keys of its objects in another order, at any depth.
  mutual
    pub data Same : Json → Json → Type 0 where
      same : {v : Json} → Same v v
      in_array : {xs ys : Items} → SameItems xs ys → Same (arr xs) (arr ys)
      in_object : {fs gs : Fields} → SameFields fs gs → Same (obj fs) (obj gs)

    pub data SameItems : Items → Items → Type 0 where
      no_items : SameItems nil nil
      item :
          {x y : Json} {xs ys : Items}
          → Same x y
          → SameItems xs ys
          → SameItems (cons x xs) (cons y ys)

    pub data SameFields : Fields → Fields → Type 0 where
      no_fields : SameFields end end
      kept :
          {k : String} {v w : Json} {fs gs : Fields}
          → Same v w
          → SameFields fs gs
          → SameFields (field k v fs) (field k w gs)
      swapped :
          {k j : String} {v w : Json} {fs : Fields}
          → Apart k j
          → SameFields (field k v (field j w fs)) (field j w (field k v fs))
      then_again : {fs gs hs : Fields} → SameFields fs gs → SameFields gs hs → SameFields fs hs

  module _
      (trans : (i j k : String)
        → p.locale_le i j ≡ true
        → p.locale_le j k ≡ true
        → p.locale_le i k ≡ true) where
    abbrev sorted : Fields → List (String × String)
    sorted fs = sort_by (key_le p) (canonicalize_entries p fs)

    insert_swapped :
        (x y : String × String) (es : List (String × String))
        → Apart x.0 y.0
        → insert_sorted (key_le p) x (insert_sorted (key_le p) y es)
          ≡ insert_sorted (key_le p) y (insert_sorted (key_le p) x es)
    insert_swapped x y es (inl (xy, yx)) =
        insert_sorted_comm (key_le p) (λ a b c. trans a.0 b.0 c.0) x y xy yx es
    insert_swapped x y es (inr (yx, xy)) =
        sym (insert_sorted_comm (key_le p) (λ a b c. trans a.0 b.0 c.0) y x yx xy es)

    mutual
      unfolding canonicalize canonicalize_items canonicalize_entries

      canonicalize_same : {v w : Json} → Same v w → canonicalize p v ≡ canonicalize p w
      canonicalize_same same = refl
      canonicalize_same (in_array s) = rw (items_same s)
      canonicalize_same (in_object s) = rw (fields_same s)

      items_same :
          {xs ys : Items} → SameItems xs ys → canonicalize_items p xs ≡ canonicalize_items p ys
      items_same no_items = refl
      items_same (item h s) = rw (canonicalize_same h, items_same s)

      fields_same : {fs gs : Fields} → SameFields fs gs → sorted fs ≡ sorted gs
      fields_same no_fields = refl
      fields_same (kept {k} h s) = rw (canonicalize_same h, fields_same s)
      fields_same (swapped {k} {j} {v} {w} {fs} a) =
          insert_swapped (k, canonicalize p v) (j, canonicalize p w) (sorted fs) a
      fields_same (then_again s t) = fields_same s ∙ fields_same t

    sha256_same : {v w : Json} → Same v w → sha256 p v ≡ sha256 p w
    unfolding sha256
    sha256_same same = refl
    sha256_same (in_array s) = ap p.sha256_hex (canonicalize_same (in_array s))
    sha256_same (in_object s) = ap p.sha256_hex (canonicalize_same (in_object s))

    -- Two values that differ in the order of their objects' keys only, at any depth, have one canonical
    -- text and one hash, given that the order of keys is transitive and strict on the keys that are
    -- swapped.
    pub canonicalize-Same :
        {v w : Json} → Same v w → (canonicalize p v ≡ canonicalize p w) × (sha256 p v ≡ sha256 p w)
    canonicalize-Same s = (canonicalize_same s, sha256_same s)
