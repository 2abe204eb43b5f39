-- ===== src/Store/Erases.antt =====
-- delete() of ApStore removes one id from the abstract store, and nothing else.
use qu_v.Prelude.{
  ℕ, ◌<◌, ◌≡◌, ◌≢◌, sym, ap, ◌∙◌, Text, none, some, [], if_pos, if_neg, text_dec, text_eq_iff,
  text_eq-ne, ◌==◌, ◌&&◌, if◌then◌else◌, arith,
}
use qu_v.Core.Cursor.RoundTrip.{ts_limit}
use qu_v.Core.Storage
use qu_v.Core.Storage.{Operations}
use qu_v.As2.Vocabulary.{includes}
use qu_v.Store.{Stored, Record, object_key, erase_record}
use qu_v.Store.Keys.{index_text, object_key_inj, object_key-ne-index_text}
use qu_v.Store.View.{View, update, indexes, index_entry, stored, Represents}
use qu_v.Store.Index.{Unindexed, unindex-Unindexed}

module _ {S : Type 0} (o : Operations S Stored) (Ok : S → Type 0)
    (laws : Storage.Laws S Stored o Ok) where
  delete_object-index :
      (a : S) (id c : Text) (n : ℕ) (j : Text)
      → Ok a
      → o.get (o.delete a (object_key id)) (index_text c n j) ≡ o.get a (index_text c n j)
  delete_object-index a id c n j h =
      laws.get-delete a (object_key id) (index_text c n j) h
      ∙ if_neg _ (λ e. object_key-ne-index_text id c n j (sym e)) none _

  delete_object-object :
      (a : S) (m : View) (id j : Text)
      → Ok a
      → o.get a (object_key j) ≡ stored (m j)
      → o.get (o.delete a (object_key id)) (object_key j) ≡ stored (update m id none j)
  unfolding stored
  delete_object-object a m id j h e = elim (text_dec j id) [
    | yes p ↦
        laws.get-delete a (object_key id) (object_key j) h
        ∙ if_pos (text_dec (object_key j) (object_key id)) (ap object_key p) none
            (o.get a (object_key j))
        ∙ sym (ap stored (if_pos (text_dec j id) p none (m j)))
    | no f ↦
        laws.get-delete a (object_key id) (object_key j) h
        ∙ if_neg (text_dec (object_key j) (object_key id)) (λ q. f (object_key_inj j id q)) none
            (o.get a (object_key j))
        ∙ e
        ∙ sym (ap stored (if_neg (text_dec j id) f none (m j)))
  ]

  erased :
      (a b : S) (m : View) (id : Text) (r : Record)
      → Represents o Ok a m
      → m id ≡ some r
      → (f : r.ts < ts_limit) (g : id ≢ [])
      → Unindexed o Ok laws r.ts id f g r.collections (o.delete a (object_key id)) b
      → Represents o Ok b (update m id none)
  erased a b m id r rep e f g u = record {
    ok = u.ok;
    indexable = λ j q p. elim (text_dec j id) [
      | yes y ↦ cc (sym (if_pos (text_dec j id) y none (m j)) ∙ p)
      | no n ↦ rep.indexable j q (sym (if_neg (text_dec j id) n none (m j)) ∙ p)
    ];
    objects = λ j. u.objects j ∙ delete_object-object a m id j rep.ok (rep.objects j);
    index = λ c n j hc hn hj.
        u.index c n j hc hn
        ∙ rw (delete_object-index a id c n j rep.ok, rep.index c n j hc hn hj)
            (elim (text_dec j id) [
              | yes p ↦
                  rw (if_pos (text_dec j id) p none (m j), (text_eq_iff j id).1 p)
                    (own c n j (ap m p ∙ e))
              | no q ↦ rw (if_neg (text_dec j id) q none (m j), text_eq-ne j id q)
            ]);
    only = λ c k v hc h p. rep.only c k v hc h (kept k v (u.only k v p));
  }
    where
      own :
          (c : Text) (n : ℕ) (j : Text)
          → m j ≡ some r
          → (if n == r.ts && includes r.collections c
              then none
              else index_entry (indexes (m j) c n) j)
            ≡ index_entry (indexes none c n) j
      own c n j q = rw q (unfold indexes index_entry in ground arith)

      kept :
          (k : Text) (v : Stored)
          → o.get (o.delete a (object_key id)) k ≡ some v
          → o.get a k ≡ some v
      kept k v p = ground (arith, p, laws.get-delete a (object_key id) k rep.ok)

  -- delete() of an id that has a record raises no exception, and the adapter then represents the
  -- abstract store without that id.
  pub erase_record-Represents :
      (a : S) (m : View) (id : Text) (r : Record)
      → Represents o Ok a m
      → m id ≡ some r
      → (b : S) × (erase_record o a id r ≡ (b, none)) × Represents o Ok b (update m id none)
  unfolding erase_record
  erase_record-Represents a m id r rep e =
      let (x, ne) = rep.indexable id r e in
      let (b, p, u) =
        unindex-Unindexed o Ok laws r.ts id x.fits ne r.collections (o.delete a (object_key id))
          x.clean (laws.delete-Ok a (object_key id) rep.ok) in
      (b, p, erased a b m id r rep e x.fits ne u)
