-- ===== src/Core/Volatile/Expiry.antt =====
-- What is read from a volatile adapter, and for how long.
use qu_v.Prelude.{
  ℕ, ◌+◌, ◌≤◌, ◌≡◌, refl, inl, inr, Text, Option, none, some, [], ◌∷◌, In, leb, ltb, if◌then◌else◌,
  starts_with, ite, if_pos, if_neg, text_dec, arith, Bool-cases,
}
use qu_v.Core.Storage.{keys}
use qu_v.Core.JsMap.{Entries, find}
use qu_v.Core.JsMap.Laws.{IsMap, find-put, find_absent, put-IsMap}
use qu_v.Core.Volatile.{Slot, Volatile, live, prune, put_ttl, get, value_of, clear, without_prefix}

module _ {V : Type 0} where
  -- The keys of an adapter are distinct.
  abbrev pub IsValid : Volatile V → Type 0
  IsValid a = IsMap a.entries

  In-live : (now : ℕ) (m : Entries (Slot V)) (k : Text) → In k (keys (live now m)) → In k (keys m)
  unfolding live
  In-live now [] k h = h
  In-live now ((j, e) ∷ m) k h = ground (arith, In-live now m k)

  live-IsMap : (now : ℕ) (m : Entries (Slot V)) → IsMap m → IsMap (live now m)
  unfolding live
  live-IsMap now [] d = tt
  live-IsMap now ((j, e) ∷ m) d = elim (Bool-cases (leb e.expires_at now)) [
    | inl t ↦ rw (t, live) (live-IsMap now m d.1)
    | inr f ↦ rw (f, live) ((λ h. d.0 (In-live now m j h)), live-IsMap now m d.1)
  ]

  -- The value of a slot that has not expired.
  unfoldable pub fresh : ℕ → Option (Slot V) → Option V
  fresh now none = none
  fresh now (some e) = if leb e.expires_at now then none else some e.value

  value_of-find-live :
      (now : ℕ) (m : Entries (Slot V)) (k : Text)
      → IsMap m
      → value_of (find (live now m) k) ≡ fresh now (find m k)
  unfolding value_of find live fresh
  value_of-find-live now [] k d = refl
  value_of-find-live now ((j, e) ∷ m) k d =
      ground (arith, value_of-find-live now m k d.1, find_absent m j d.0)

  get-fresh :
      (a : Volatile V) (k : Text) (now : ℕ)
      → IsValid a
      → (get a k now).1 ≡ fresh now (find a.entries k)
  unfolding get
  get-fresh a k now d = value_of-find-live now a.entries k d

  -- A slot that outlives `t` outlives every earlier prune.
  fresh-find-live :
      (s t : ℕ) (m : Entries (Slot V)) (k : Text)
      → s ≤ t
      → IsMap m
      → fresh t (find (live s m) k) ≡ fresh t (find m k)
  unfolding fresh find live
  fresh-find-live s t [] k h d = refl
  fresh-find-live s t ((j, e) ∷ m) k h d =
      ground (arith, fresh-find-live s t m k h d.1, find_absent m j d.0)

  -- In an adapter with distinct keys, a value written at `s` with a time to live is read back at every later time before `s + ttl`
  -- and at none from there on, and the write changes what no other key reads.
  pub get-put_ttl :
      (a : Volatile V) (k j : Text) (v : V) (ttl s t : ℕ)
      → IsValid a
      → s ≤ t
      → (get (put_ttl a k v ttl s) j t).1
        ≡ ite (text_dec j k) (if ltb t (s + ttl) then some v else none) (get a j t).1
  unfolding put_ttl
  get-put_ttl a k j v ttl s t d h =
      rw
        (
          get-fresh (put_ttl a k v ttl s) j t
              (put-IsMap (live s a.entries) k _ (live-IsMap s a.entries d)),
          get-fresh a j t d,
          find-put (live s a.entries) k j (record { value = v; expires_at = s + ttl }),
        )
        (elim (text_dec j k) [
          | yes e ↦
              simp
                (
                  if_pos {C = Option (Slot V)} (text_dec j k) e,
                  if_pos {C = Option V} (text_dec j k) e,
                )
                (unfold fresh in ground arith)
          | no n ↦
              simp
                (
                  if_neg {C = Option (Slot V)} (text_dec j k) n,
                  if_neg {C = Option V} (text_dec j k) n,
                )
                (fresh-find-live s t a.entries j h d)
        ])

  find-without_prefix :
      (p : Text) (m : Entries (Slot V)) (k : Text)
      → find (without_prefix p m) k ≡ (if starts_with p k then none else find m k)
  unfolding find without_prefix
  find-without_prefix p [] k = ground arith
  find-without_prefix p ((j, e) ∷ m) k = ground (arith, find-without_prefix p m k)

  In-without_prefix :
      (p : Text) (m : Entries (Slot V)) (k : Text)
      → In k (keys (without_prefix p m))
      → In k (keys m)
  unfolding without_prefix
  In-without_prefix p [] k h = h
  In-without_prefix p ((j, e) ∷ m) k h = ground (arith, In-without_prefix p m k)

  without_prefix-IsMap : (p : Text) (m : Entries (Slot V)) → IsMap m → IsMap (without_prefix p m)
  unfolding without_prefix
  without_prefix-IsMap p [] d = tt
  without_prefix-IsMap p ((j, e) ∷ m) d = elim (Bool-cases (starts_with p j)) [
    | inl t ↦ rw (t, without_prefix) (without_prefix-IsMap p m d.1)
    | inr f ↦
        rw (f, without_prefix)
          ((λ h. d.0 (In-without_prefix p m j h)), without_prefix-IsMap p m d.1)
  ]

  -- In an adapter with distinct keys, clearing a prefix removes exactly the keys that start with it.
  get-clear :
      (a : Volatile V) (p k : Text) (now : ℕ)
      → IsValid a
      → (get (clear a p) k now).1 ≡ (if starts_with p k then none else (get a k now).1)
  unfolding clear
  get-clear a p k now d =
      rw
        (
          get-fresh (clear a p) k now (without_prefix-IsMap p a.entries d),
          get-fresh a k now d,
          find-without_prefix p a.entries k,
        )
        (unfold fresh in ground arith)

  pub put_ttl-IsValid :
      (a : Volatile V) (k : Text) (v : V) (ttl now : ℕ)
      → IsValid a
      → IsValid (put_ttl a k v ttl now)
  unfolding put_ttl
  put_ttl-IsValid a k v ttl now d = put-IsMap (live now a.entries) k _ (live-IsMap now a.entries d)

  pub prune-IsValid : (a : Volatile V) (now : ℕ) → IsValid a → IsValid (prune now a)
  unfolding prune
  prune-IsValid a now d = live-IsMap now a.entries d

  pub clear-IsValid : (a : Volatile V) (p : Text) → IsValid a → IsValid (clear a p)
  unfolding clear
  clear-IsValid a p d = without_prefix-IsMap p a.entries d
