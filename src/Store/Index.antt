-- ===== src/Store/Index.antt =====
-- What the loops over the collections do to every key of the adapter.
use qu_v.Prelude.{
  ℕ, ◌<◌, ◌≡◌, ◌≢◌, ◌⊎◌, refl, sym, ◌∙◌, inl, inr, Bool, Text, none, some, List, [], ◌∷◌, ite,
  if_pos, if_neg, text_dec, text_eq, text_eq_iff, ◌==◌, ◌&&◌, All, if◌then◌else◌, arith,
}
use qu_v.Core.Cursor.RoundTrip.{ts_limit}
use qu_v.Core.Storage
use qu_v.Core.Storage.{Operations}
use qu_v.As2.Vocabulary.{includes}
use qu_v.Store.{Stored, stored_id, object_key, index_in, unindex}
use qu_v.Store.Keys.{IsClean, index_text, index_key-fits, index_text_inj, object_key-ne-index_text}

-- The index key of (c, n, j) is that of (d, m, i).
abbrev pub same_key : Text → ℕ → Text → Text → ℕ → Text → Bool
same_key c n j d m i = text_eq j i && (n == m && text_eq c d)

decide_key :
    {A : Type 0} (c : Text) (n : ℕ) (j d : Text) (m : ℕ) (i : Text) (x y : A)
    → IsClean c
    → IsClean d
    → n < ts_limit
    → m < ts_limit
    → ite (text_dec (index_text c n j) (index_text d m i)) x y
      ≡ (if same_key c n j d m i then x else y)
decide_key c n j d m i x y hc hd hn hm = elim (text_dec (index_text c n j) (index_text d m i)) [
  | yes e ↦
      let (p, q, r) = index_text_inj c d n m j i hc hd hn hm e in
      if_pos _ e x y ∙ ground (arith, p, q, r, text_eq_iff j i, text_eq_iff c d)
  | no f ↦
      let different : c ≡ d → n ≡ m → j ≡ i → ⊥ = λ p q r. f (λ k. index_text (p k) (q k) (r k)) in
      if_neg _ f x y ∙ ground (arith, different, text_eq_iff j i, text_eq_iff c d)
]

-- The entry (c, n, j) is one that the loop over `cs` for the id `i` at `m` goes through.
abbrev pub touched : List Text → ℕ → Text → Text → ℕ → Text → Bool
touched cs m i c n j = text_eq j i && (n == m && includes cs c)

module _ {S : Type 0} (o : Operations S Stored) (Ok : S → Type 0)
    (laws : Storage.Laws S Stored o Ok) (m : ℕ) (i : Text) (fits : m < ts_limit)
    (named : i ≢ []) where
  delete_index :
      (a : S) (c d : Text) (n : ℕ) (j : Text)
      → Ok a
      → IsClean c
      → IsClean d
      → n < ts_limit
      → o.get (o.delete a (index_text d m i)) (index_text c n j)
        ≡ (if same_key c n j d m i then none else o.get a (index_text c n j))
  delete_index a c d n j h hc hd hn =
      laws.get-delete a (index_text d m i) (index_text c n j) h
      ∙ decide_key c n j d m i none _ hc hd hn fits

  put_index :
      (a : S) (c d : Text) (n : ℕ) (j : Text) (v : Stored)
      → IsClean c
      → IsClean d
      → n < ts_limit
      → o.get (o.put a (index_text d m i) v) (index_text c n j)
        ≡ (if same_key c n j d m i then some v else o.get a (index_text c n j))
  put_index a c d n j v hc hd hn =
      laws.get-put a (index_text d m i) (index_text c n j) v
      ∙ decide_key c n j d m i (some v) _ hc hd hn fits

  delete_index-object :
      (a : S) (d j : Text)
      → Ok a
      → o.get (o.delete a (index_text d m i)) (object_key j) ≡ o.get a (object_key j)
  delete_index-object a d j h =
      laws.get-delete a (index_text d m i) (object_key j) h
      ∙ if_neg _ (object_key-ne-index_text j d m i) none _

  put_index-object :
      (a : S) (d j : Text) (v : Stored)
      → o.get (o.put a (index_text d m i) v) (object_key j) ≡ o.get a (object_key j)
  put_index-object a d j v =
      laws.get-put a (index_text d m i) (object_key j) v
      ∙ if_neg _ (object_key-ne-index_text j d m i) (some v) _

  -- The loop that removes index entries ends without an exception, and removes exactly those.
  pub record Unindexed (cs : List Text) (a b : S) : Type 0 where
    pub ok : Ok b
    pub objects : (j : Text) → o.get b (object_key j) ≡ o.get a (object_key j)
    pub index :
        (c : Text) (n : ℕ) (j : Text)
        → IsClean c
        → n < ts_limit
        → o.get b (index_text c n j)
          ≡ (if touched cs m i c n j then none else o.get a (index_text c n j))
    pub only : (k : Text) (v : Stored) → o.get b k ≡ some v → o.get a k ≡ some v

  pub unindex-Unindexed :
      (cs : List Text) (a : S)
      → All IsClean cs
      → Ok a
      → (b : S) × (unindex o cs m i a ≡ (b, none)) × Unindexed cs a b
  unfolding unindex includes
  unindex-Unindexed [] a hs h = (
    a,
    refl,
    record { ok = h; objects = λ j. refl; index = λ c n j hc hn. ground arith; only = λ k v e. e },
  )
  unindex-Unindexed (d ∷ cs) a hs h =
      let a' = o.delete a (index_text d m i) in
      let (b, e, u) = unindex-Unindexed cs a' hs.1 (laws.delete-Ok a (index_text d m i) h) in
      (
        b,
        rw (index_key-fits d m i fits named, unindex) e,
        record {
          ok = u.ok;
          objects = λ j. u.objects j ∙ delete_index-object a d j h;
          index = λ c n j hc hn.
              ground (arith, u.index c n j hc hn, delete_index a c d n j h hc hs.0 hn);
          only = λ k v p. ground (arith, u.only k v p, laws.get-delete a (index_text d m i) k h);
        },
      )

  -- The loop that writes index entries ends without an exception, and writes exactly those.
  pub record Indexed (cs : List Text) (a b : S) : Type 0 where
    pub ok : Ok b
    pub objects : (j : Text) → o.get b (object_key j) ≡ o.get a (object_key j)
    pub index :
        (c : Text) (n : ℕ) (j : Text)
        → IsClean c
        → n < ts_limit
        → o.get b (index_text c n j)
          ≡ (if touched cs m i c n j then some (stored_id i) else o.get a (index_text c n j))
    pub only :
        (k : Text) (v : Stored)
        → o.get b k ≡ some v
        → (o.get a k ≡ some v) ⊎ ((d : Text) × IsClean d × (k ≡ index_text d m i))

  pub index_in-Indexed :
      (cs : List Text) (a : S)
      → All IsClean cs
      → Ok a
      → (b : S) × (index_in o cs m i a ≡ (b, none)) × Indexed cs a b
  unfolding index_in includes
  index_in-Indexed [] a hs h = (
    a,
    refl,
    record {
      ok = h;
      objects = λ j. refl;
      index = λ c n j hc hn. ground arith;
      only = λ k v e. inl e;
    },
  )
  index_in-Indexed (d ∷ cs) a hs h =
      let w = stored_id i in
      let a' = o.put a (index_text d m i) w in
      let (b, e, u) = index_in-Indexed cs a' hs.1 (laws.put-Ok a (index_text d m i) w h) in
      (
        b,
        rw (index_key-fits d m i fits named, index_in) e,
        record {
          ok = u.ok;
          objects = λ j. u.objects j ∙ put_index-object a d j w;
          index =
              λ c n j hc hn. ground (arith, u.index c n j hc hn, put_index a c d n j w hc hs.0 hn);
          only = λ k v p. elim (u.only k v p) [
            | inr q ↦ inr q
            | inl q ↦ elim (text_dec k (index_text d m i)) [
              | yes r ↦ inr (d, hs.0, r)
              | no r ↦ inl (sym (laws.get-put a (index_text d m i) k w ∙ if_neg _ r (some w) _) ∙ q)
            ]
          ];
        },
      )
