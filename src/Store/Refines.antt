-- ===== src/Store/Refines.antt =====
-- put() and delete() of ApStore update the abstract store at one id, and nothing else.
use mathlib.Core.Bool.{false≢true}
use qu_v.Prelude.{
  subst, ℕ, ◌<◌, ◌≡◌, ◌≢◌, refl, sym, ap, ◌∙◌, inl, inr, true, Text, none, some, [], if_pos, if_neg,
  text_dec, text_eq, text_eq_iff, text_eq-ne, ◌==◌, ◌&&◌, starts_with, if◌then◌else◌, arith,
  Bool-cases, Option-cases,
}
use qu_v.Core.Cursor.RoundTrip.{ts_limit}
use qu_v.Core.Storage
use qu_v.Core.Storage.{Operations}
use qu_v.As2.Vocabulary.{includes}
use qu_v.Store.{
  Stored, stored_record, stored_id, Record, object_key, index_key_prefix, as_record, read_record,
  forget_index, write_record,
}
use qu_v.Store.Keys.{
  IsClean, index_text, object_key_inj, object_key-ne-index_text, starts_with-object_key,
  collection_of_prefix,
}
use qu_v.Store.View.{View, update, IsIndexable, indexes, index_entry, stored, Represents}
use qu_v.Store.Index.{Unindexed, Indexed, unindex-Unindexed, index_in-Indexed}

module _ {S : Type 0} (o : Operations S Stored) (Ok : S → Type 0)
    (laws : Storage.Laws S Stored o Ok) where
  -- Reading the record of an id is reading the abstract store.
  pub read_record-view :
      (a : S) (m : View) (id : Text) → Represents o Ok a m → read_record o a id ≡ m id
  unfolding read_record as_record stored
  read_record-view a m id r = ground (arith, r.objects id)

  -- The adapter after the old index entries of `id` are gone, if it had any.
  pub record Forgotten (m : View) (id : Text) (a b : S) : Type 0 where
    pub ok : Ok b
    pub objects : (j : Text) → o.get b (object_key j) ≡ o.get a (object_key j)
    pub index :
        (c : Text) (n : ℕ) (j : Text)
        → IsClean c
        → n < ts_limit
        → j ≢ []
        → o.get b (index_text c n j) ≡ (if text_eq j id then none else o.get a (index_text c n j))
    pub only : (k : Text) (v : Stored) → o.get b k ≡ some v → o.get a k ≡ some v

  unindex-Forgotten :
      (a b : S) (m : View) (id : Text) (r : Record)
      → Represents o Ok a m
      → (e : m id ≡ some r) → (f : r.ts < ts_limit) (g : id ≢ [])
      → Unindexed o Ok laws r.ts id f g r.collections a b
      → Forgotten m id a b
  unfolding indexes index_entry
  unindex-Forgotten a b m id r rep e f g u = record {
    ok = u.ok;
    objects = u.objects;
    index = λ c n j hc hn hj. elim (Bool-cases (text_eq j id)) [
      | inl t ↦
          let same : m j ≡ some r = ap m ((text_eq_iff j id).0 t) ∙ e in
          ground (arith, t, u.index c n j hc hn, rep.index c n j hc hn hj, same)
      | inr t ↦ ground (arith, t, u.index c n j hc hn)
    ];
    only = u.only;
  }

  forget_index-Forgotten :
      (a : S) (m : View) (id : Text)
      → Represents o Ok a m
      → id ≢ []
      → (b : S) × (forget_index o (m id) id a ≡ (b, none)) × Forgotten m id a b
  unfolding forget_index
  forget_index-Forgotten a m id rep ne = elim (Option-cases (m id)) [
    | inl e ↦ (
      a,
      rw (e, forget_index),
      record {
        ok = rep.ok;
        objects = λ j. refl;
        index = λ c n j hc hn hj. elim (Bool-cases (text_eq j id)) [
          | inl t ↦
              let same : m j ≡ none = ap m ((text_eq_iff j id).0 t) ∙ e in
              unfold indexes index_entry in ground (arith, t, rep.index c n j hc hn hj, same)
          | inr t ↦ rw t
        ];
        only = λ k v q. q;
      },
    )
    | inr (r, e) ↦
        let (x, y) = rep.indexable id r e in
        let (b, p, u) =
          unindex-Unindexed o Ok laws r.ts id x.fits y r.collections a x.clean rep.ok in
        (b, rw (e, forget_index) p, unindex-Forgotten a b m id r rep e x.fits y u)
  ]

  -- A write under an object key leaves every index key as it was.
  put_object-index :
      (b : S) (id c : Text) (n : ℕ) (j : Text) (w : Stored)
      → o.get (o.put b (object_key id) w) (index_text c n j) ≡ o.get b (index_text c n j)
  put_object-index b id c n j w =
      laws.get-put b (object_key id) (index_text c n j) w
      ∙ if_neg _ (λ e. object_key-ne-index_text id c n j (sym e)) (some w) _

  put_object-object :
      (b : S) (m : View) (id j : Text) (r : Record)
      → o.get b (object_key j) ≡ stored (m j)
      → o.get (o.put b (object_key id) (stored_record r)) (object_key j)
        ≡ stored (update m id (some r) j)
  unfolding stored
  put_object-object b m id j r e = elim (text_dec j id) [
    | yes p ↦
        laws.get-put b (object_key id) (object_key j) (stored_record r)
        ∙ if_pos (text_dec (object_key j) (object_key id)) (ap object_key p)
            (some (stored_record r)) (o.get b (object_key j))
        ∙ sym (ap stored (if_pos (text_dec j id) p (some r) (m j)))
    | no f ↦
        laws.get-put b (object_key id) (object_key j) (stored_record r)
        ∙ if_neg (text_dec (object_key j) (object_key id)) (λ q. f (object_key_inj j id q))
            (some (stored_record r)) (o.get b (object_key j))
        ∙ e
        ∙ sym (ap stored (if_neg (text_dec j id) f (some r) (m j)))
  ]

  put_object-only :
      (b : S) (id c k : Text) (w v : Stored)
      → starts_with (index_key_prefix c) k ≡ true
      → o.get (o.put b (object_key id) w) k ≡ some v
      → o.get b k ≡ some v
  put_object-only b id c k w v h e =
      let other : k ≢ object_key id = λ q.
        false≢true
          (sym (starts_with-object_key c id) ∙ ap (starts_with (index_key_prefix c)) (sym q) ∙ h) in
      sym (laws.get-put b (object_key id) k w ∙ if_neg _ other (some w) _) ∙ e

  update-IsIndexable :
      (m : View) (id j : Text) (r q : Record)
      → ((id : Text) (r : Record) → m id ≡ some r → IsIndexable r × (id ≢ []))
      → IsIndexable r
      → id ≢ []
      → update m id (some r) j ≡ some q
      → IsIndexable q × (j ≢ [])
  update-IsIndexable m id j r q old new ne e = elim (text_dec j id) [
    | yes p ↦ (
      subst IsIndexable (cc (sym (if_pos (text_dec j id) p (some r) (m j)) ∙ e)) new,
      (λ z. ne (sym p ∙ z)),
    )
    | no f ↦ old j q (sym (if_neg (text_dec j id) f (some r) (m j)) ∙ e)
  ]

  written :
      (a b c : S) (m : View) (id : Text) (r : Record)
      → Represents o Ok a m
      → (ne : id ≢ []) → (x : IsIndexable r) → Forgotten m id a b
      → Indexed o Ok laws r.ts id x.fits ne r.collections
          (o.put b (object_key id) (stored_record r))
          c
      → Represents o Ok c (update m id (some r))
  written a b c m id r rep ne x u v = record {
    ok = v.ok;
    indexable = λ j q e. update-IsIndexable m id j r q rep.indexable x ne e;
    objects = λ j. v.objects j ∙ put_object-object b m id j r (u.objects j ∙ rep.objects j);
    index = λ d n j hd hn hj.
        v.index d n j hd hn
        ∙ (rw (put_object-index b id d n j (stored_record r), u.index d n j hd hn hj)
            (elim (text_dec j id) [
              | yes p ↦
                  rw ((text_eq_iff j id).1 p, if_pos (text_dec j id) p (some r) (m j)) (own d n j p)
              | no f ↦
                  rw (text_eq-ne j id f, if_neg (text_dec j id) f (some r) (m j))
                    (rep.index d n j hd hn hj)
            ]));
    only = λ d k w hd h e. elim (v.only k w e) [
      | inl q ↦ rep.only d k w hd h (u.only k w (put_object-only b id d k _ w h q))
      | inr (d', hd', q) ↦
          let same : d ≡ d' =
            collection_of_prefix d d' r.ts id hd hd'
              (subst (λ z. starts_with (index_key_prefix d) z ≡ true) q h) in
          (r.ts, id, q ∙ ap (λ z. index_text z r.ts id) (sym same), x.fits, ne)
    ];
  }
    where
      own :
          (d : Text) (n : ℕ) (j : Text)
          → j ≡ id
          → (if n == r.ts && includes r.collections d then some (stored_id id) else none)
            ≡ index_entry (indexes (some r) d n) j
      own d n j p = rw p (unfold indexes index_entry in ground arith)

  -- put() of a persistent document whose record can be indexed raises no exception, and the
  -- adapter then represents the abstract store with that record at its id.
  pub write_record-Represents :
      (a : S) (m : View) (id : Text) (r : Record)
      → Represents o Ok a m
      → id ≢ []
      → IsIndexable r
      → (b : S) × (write_record o a id r ≡ (b, none)) × Represents o Ok b (update m id (some r))
  unfolding write_record
  write_record-Represents a m id r rep ne x =
      let (b, p, u) = forget_index-Forgotten a m id rep ne in
      let w = stored_record r in
      let b' = o.put b (object_key id) w in
      let (c, q, v) =
        index_in-Indexed o Ok laws r.ts id x.fits ne r.collections b' x.clean
          (laws.put-Ok b (object_key id) w u.ok) in
      (c, rw (read_record-view a m id rep, p) q, written a b c m id r rep ne x u v)
