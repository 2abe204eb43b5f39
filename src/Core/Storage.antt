-- ===== src/Core/Storage.antt =====
-- The ordered key-value interface that every storage adapter implements, and that ApStore is
-- built against: put(key, value), get(key), delete(key), list({ prefix, limit, reverse }).
-- A limit of `none` is Infinity.
use qu_v.Prelude.{
  ℕ, ◌≡◌, ◌↔◌, Bool, true, false, Text, Option, none, some, List, map, reverse, In, take, ite,
  text_dec, starts_with,
}
use qu_v.Prelude.Sorting.{Ascending}

pub record Operations (S V : Type 0) : Type 0 where
  pub put : S → Text → V → S
  pub get : S → Text → Option V
  pub delete : S → Text → S
  pub list : S → Text → Option ℕ → Bool → List (Text × V)

abbrev pub keys : {V : Type 0} → List (Text × V) → List Text
keys = map (λ e. e.0)

-- What a client may rely on, on the states that satisfy `Ok`.
pub record Laws (S V : Type 0) (o : Operations S V) (Ok : S → Type 0) : Type 0 where
  pub put-Ok : (s : S) (k : Text) (v : V) → Ok s → Ok (o.put s k v)
  pub delete-Ok : (s : S) (k : Text) → Ok s → Ok (o.delete s k)
  pub get-put :
      (s : S) (k j : Text) (v : V) → o.get (o.put s k v) j ≡ ite (text_dec j k) (some v) (o.get s j)
  pub get-delete :
      (s : S) (k j : Text) → Ok s → o.get (o.delete s k) j ≡ ite (text_dec j k) none (o.get s j)
  pub list-Ascending : (s : S) (p : Text) → Ok s → Ascending (keys (o.list s p none false))
  pub list-In :
      (s : S) (p k : Text) (v : V)
      → Ok s
      → In (k, v) (o.list s p none false) ↔ ((starts_with p k ≡ true) × (o.get s k ≡ some v))
  pub list-reverse :
      (s : S) (p : Text) → Ok s → o.list s p none true ≡ reverse (o.list s p none false)
  pub list-limit :
      (s : S) (p : Text) (n : ℕ) (r : Bool)
      → Ok s
      → o.list s p (some n) r ≡ take n (o.list s p none r)
