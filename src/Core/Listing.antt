-- ===== src/Core/Listing.antt =====
-- The listing that the adapters share (the list() of memory-adapter.js, volatile-adapter.js and of
-- packages/runtime/src/fs-adapter.js): keys by prefix, sorted, perhaps reversed, cut to a limit.
pub mod Laws
use qu_v.Prelude.{
  ℕ, Bool, true, false, Text, Option, none, some, List, [], ◌∷◌, reverse, take, starts_with,
  if◌then◌else◌,
}
use qu_v.Prelude.Sorting.{sort}

-- keys.filter((key) => key.startsWith(prefix))
unfoldable pub with_prefix : Text → List Text → List Text
with_prefix p [] = []
with_prefix p (k ∷ ks) = let rest = with_prefix p ks in if starts_with p k then k ∷ rest else rest

-- if (reverse) keys.reverse()
unfoldable pub directed : Bool → List Text → List Text
directed true ks = reverse ks
directed false ks = ks

-- if (Number.isFinite(limit)) keys = keys.slice(0, limit)
unfoldable pub limited : Option ℕ → List Text → List Text
limited none ks = ks
limited (some n) ks = take n ks

unfoldable pub select_keys : Text → Option ℕ → Bool → List Text → List Text
unfolding with_prefix directed limited
select_keys p limit rev ks = limited limit (directed rev (sort (with_prefix p ks)))

-- keys.map((key) => ({ key, value })). Every listed key has a value.
unfoldable pub with_values : {V : Type 0} → (Text → Option V) → List Text → List (Text × V)
with_values find [] = []
with_values find (k ∷ ks) =
    let rest = with_values find ks in elim (find k) [ none ↦ rest | some v ↦ (k, v) ∷ rest ]
