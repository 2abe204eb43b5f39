-- ===== src/Core/Memory/Laws.antt =====
-- MemoryStoreAdapter keeps the laws of an ordered key-value adapter.
use qu_v.Prelude.{
  ℕ, ◌≡◌, ◌↔◌, All, All-of_In, All-In, In-reverse, Bool, true, false, Text, none, some, reverse, In,
  take, starts_with,
}
use qu_v.Prelude.Sorting.{Ascending}
use qu_v.Core.Storage
use qu_v.Core.Storage.{Operations, keys}
use qu_v.Core.Listing.{select_keys}
use qu_v.Core.Listing.Laws.{
  Found, In-select_keys, select_keys-Ascending, select_keys-reverse, select_keys-limit,
  In-with_values, keys-with_values, with_values-reverse, with_values-take,
}
use qu_v.Core.JsMap.{Entries, find}
use qu_v.Core.JsMap.Laws.{
  IsMap, find-put, find-delete, put-IsMap, delete-IsMap, In-keys_of_find, find_of_In-keys,
}
use qu_v.Core.Memory.{put, get, delete, list, memory_adapter}

module _ {V : Type 0} where
  selected-Found :
      (m : Entries V) (p : Text) → All (Found (find m)) (select_keys p none false (keys m))
  selected-Found m p =
      All-of_In (Found (find m)) _ λ k h. find_of_In-keys m k ((In-select_keys p k (keys m)).0 h).1

  list-Ascending : (m : Entries V) (p : Text) → IsMap m → Ascending (keys (list m p none false))
  unfolding list
  list-Ascending m p d =
      rw (keys-with_values (find m) (select_keys p none false (keys m)) (selected-Found m p))
        (select_keys-Ascending p (keys m) d)

  list-In :
      (m : Entries V) (p k : Text) (v : V)
      → In (k, v) (list m p none false) ↔ ((starts_with p k ≡ true) × (find m k ≡ some v))
  unfolding list
  list-In m p k v =
      let (a, b) = In-with_values (find m) k v (select_keys p none false (keys m)) in
      let (c, d) = In-select_keys p k (keys m) in
      ((λ h. ((c (a h).0).0, (a h).1)), (λ h. b (d (h.0, In-keys_of_find m k v h.1), h.1)))

  list-reverse : (m : Entries V) (p : Text) → list m p none true ≡ reverse (list m p none false)
  unfolding list
  list-reverse m p =
      rw (select_keys-reverse p (keys m))
        (with_values-reverse (find m) (select_keys p none false (keys m)))

  reversed-Found :
      (m : Entries V) (p : Text) (r : Bool) → All (Found (find m)) (select_keys p none r (keys m))
  reversed-Found m p false = selected-Found m p
  reversed-Found m p true = rw (select_keys-reverse p (keys m)) (
      All-of_In (Found (find m)) _ λ k h.
        All-In (Found (find m)) (select_keys p none false (keys m)) k (selected-Found m p)
          (In-reverse k _ h))

  list-limit :
      (m : Entries V) (p : Text) (n : ℕ) (r : Bool) → list m p (some n) r ≡ take n (list m p none r)
  unfolding list
  list-limit m p n r =
      rw (select_keys-limit p n r (keys m))
        (with_values-take (find m) n (select_keys p none r (keys m)) (reversed-Found m p r))

-- The in-memory adapter is an ordered key-value adapter, on every map with distinct keys.
pub memory_adapter-Laws : (V : Type 0) → Storage.Laws (Entries V) V (memory_adapter V) IsMap
unfolding put get delete
memory_adapter-Laws V = record {
  put-Ok = put-IsMap;
  delete-Ok = delete-IsMap;
  get-put = find-put;
  get-delete = find-delete;
  list-Ascending = list-Ascending;
  list-In = λ m p k v d. list-In m p k v;
  list-reverse = λ m p d. list-reverse m p;
  list-limit = λ m p n r d. list-limit m p n r;
}
