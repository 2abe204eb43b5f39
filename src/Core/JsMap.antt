-- ===== src/Core/JsMap.antt =====
-- The JavaScript Map with string keys, on which the in-memory parts of the program stand.
pub mod Laws
use qu_v.Prelude.{Text, Option, none, some, List, [], ◌∷◌, ite, text_dec}

-- A Map: its entries in insertion order, one for each key.
abbrev pub Entries : Type 0 → Type 0
Entries V = List (Text × V)

module _ {V : Type 0} where
  -- map.get(key)
  unfoldable pub find : Entries V → Text → Option V
  find [] k = none
  find ((j, v) ∷ m) k = ite (text_dec k j) (some v) (find m k)

  -- map.set(key, value): a known key keeps its place.
  unfoldable pub put : Entries V → Text → V → Entries V
  put [] k v = (k, v) ∷ []
  put ((j, w) ∷ m) k v = ite (text_dec k j) ((j, v) ∷ m) ((j, w) ∷ put m k v)

  -- map.delete(key)
  unfoldable pub delete : Entries V → Text → Entries V
  delete [] k = []
  delete ((j, w) ∷ m) k = ite (text_dec k j) m ((j, w) ∷ delete m k)
