-- ===== src/Core/Memory.antt =====
-- packages/core/src/adapters/memory-adapter.js: MemoryStoreAdapter, over a JavaScript Map.
pub mod Laws
use qu_v.Prelude.{ℕ, Bool, Text, Option, List, map}
use qu_v.Core.Storage.{Operations}
use qu_v.Core.Listing.{select_keys, with_values}
use qu_v.Core.JsMap
use qu_v.Core.JsMap.{Entries, find}

module _ {V : Type 0} where
  unfoldable pub put : Entries V → Text → V → Entries V
  put m k v = JsMap.put m k v

  unfoldable pub get : Entries V → Text → Option V
  get m k = find m k

  unfoldable pub delete : Entries V → Text → Entries V
  delete m k = JsMap.delete m k

  unfoldable pub list : Entries V → Text → Option ℕ → Bool → List (Text × V)
  list m p limit rev = with_values (find m) (select_keys p limit rev (map (λ e. e.0) m))

abbrev pub memory_adapter : (V : Type 0) → Operations (Entries V) V
memory_adapter V = record { put = put; get = get; delete = delete; list = list }
