-- ===== src/Hash.antt =====
-- Canonical JSON and the hashes of it: src/lib/hash.ts. JSON.stringify on scalars and keys, the order
-- of localeCompare, and SHA-256 in hexadecimal are parameters.
pub mod Order
use sisu_kodo.Prelude.{
  String, Bool, true, false, List, [], ◌∷◌, ◌<>◌, ◌≡◌, refl, ap, ◌∙◌, ◌⊎◌, inl, inr, map, join, sym,
}
use sisu_kodo.Prelude.Json.{
  Json, null, bool, num, str, arr, obj, Items, nil, cons, Fields, end, field,
}
use sisu_kodo.Prelude.Sorting.{sort_by, insert_sorted, insert_sorted_comm}

pub record Platform : Type 0 where
  pub stringify : Json → String
  pub locale_le : String → String → Bool
  pub sha256_hex : String → String

module _ (p : Platform) where
  abbrev pub key_le : String × String → String × String → Bool
  key_le a b = p.locale_le a.0 b.0

  -- `JSON.stringify(key) + ":" + canonicalize(entry)`
  abbrev pub entry_text : String × String → String
  entry_text (key, text) = p.stringify (str key) <> (":" <> text)

  unfoldable mutual
    pub canonicalize : Json → String
    canonicalize null = p.stringify null
    canonicalize (bool b) = p.stringify (bool b)
    canonicalize (num z) = p.stringify (num z)
    canonicalize (str s) = p.stringify (str s)
    canonicalize (arr xs) = "[" <> (join "," (canonicalize_items xs) <> "]")
    canonicalize (obj fs) =
        "{" <> (join "," (map entry_text (sort_by key_le (canonicalize_entries fs))) <> "}")

    pub canonicalize_items : Items → List String
    canonicalize_items nil = []
    canonicalize_items (cons x xs) = canonicalize x ∷ canonicalize_items xs

    -- The keys with the texts of their values.
    pub canonicalize_entries : Fields → List (String × String)
    canonicalize_entries end = []
    canonicalize_entries (field k v fs) = (k, canonicalize v) ∷ canonicalize_entries fs

  -- A string is hashed as it is.
  unfoldable pub sha256 : Json → String
  unfolding canonicalize
  sha256 (str s) = p.sha256_hex s
  sha256 null = p.sha256_hex (canonicalize null)
  sha256 (bool b) = p.sha256_hex (canonicalize (bool b))
  sha256 (num z) = p.sha256_hex (canonicalize (num z))
  sha256 (arr xs) = p.sha256_hex (canonicalize (arr xs))
  sha256 (obj fs) = p.sha256_hex (canonicalize (obj fs))
