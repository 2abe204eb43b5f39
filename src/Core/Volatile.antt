-- ===== src/Core/Volatile.antt =====
-- packages/core/src/adapters/volatile-adapter.js: VolatileAdapter, a Map whose entries expire.
-- The clock, Date.now(), is an argument of each operation that reads it.
pub mod Expiry
use qu_v.Prelude.{
  ℕ, ◌+◌, Bool, true, false, Text, Option, none, some, List, [], ◌∷◌, map, leb, if◌then◌else◌,
  starts_with,
}
use qu_v.Core.Listing.{select_keys, with_values}
use qu_v.Core.JsMap
use qu_v.Core.JsMap.{Entries, find}

pub record Slot (V : Type 0) : Type 0 where
  pub value : V
  pub expires_at : ℕ

pub record Volatile (V : Type 0) : Type 0 where
  pub entries : Entries (Slot V)
  pub default_ttl_ms : ℕ

module _ {V : Type 0} where
  unfoldable pub create : ℕ → Volatile V
  create ttl_ms = record { entries = []; default_ttl_ms = ttl_ms }

  unfoldable pub live : ℕ → Entries (Slot V) → Entries (Slot V)
  live now [] = []
  live now ((k, e) ∷ m) =
      let rest = live now m in if leb e.expires_at now then rest else (k, e) ∷ rest

  -- #prune()
  unfoldable pub prune : ℕ → Volatile V → Volatile V
  unfolding live
  prune now a = record a { entries = live now a.entries }

  -- put with the { ttlMs } given
  unfoldable pub put_ttl : Volatile V → Text → V → ℕ → ℕ → Volatile V
  unfolding prune
  put_ttl a k v ttl_ms now =
      let b = prune now a in
      record b { entries = JsMap.put b.entries k (record { value = v; expires_at = now + ttl_ms }) }

  unfoldable pub put : Volatile V → Text → V → ℕ → Volatile V
  unfolding put_ttl
  put a k v now = put_ttl a k v a.default_ttl_ms now

  unfoldable pub value_of : Option (Slot V) → Option V
  value_of none = none
  value_of (some e) = some e.value

  -- The pruned adapter, and the value of a live entry.
  unfoldable pub get : Volatile V → Text → ℕ → Volatile V × Option V
  unfolding prune value_of
  get a k now = let b = prune now a in (b, value_of (find b.entries k))

  unfoldable pub is_some : Option V → Bool
  is_some none = false
  is_some (some v) = true

  unfoldable pub has : Volatile V → Text → ℕ → Volatile V × Bool
  unfolding get is_some
  has a k now = let (b, v) = get a k now in (b, is_some v)

  unfoldable pub delete : Volatile V → Text → Volatile V
  delete a k = record a { entries = JsMap.delete a.entries k }

  unfoldable pub list : Volatile V → Text → Option ℕ → Bool → ℕ → Volatile V × List (Text × V)
  unfolding prune value_of
  list a p limit rev now =
      let b = prune now a in
      (
        b,
        with_values (λ k. value_of (find b.entries k))
            (select_keys p limit rev (map (λ e. e.0) b.entries)),
      )

  unfoldable pub without_prefix : Text → Entries (Slot V) → Entries (Slot V)
  without_prefix p [] = []
  without_prefix p ((k, e) ∷ m) =
      let rest = without_prefix p m in if starts_with p k then rest else (k, e) ∷ rest

  unfoldable pub clear : Volatile V → Text → Volatile V
  unfolding without_prefix
  clear a p = record a { entries = without_prefix p a.entries }
