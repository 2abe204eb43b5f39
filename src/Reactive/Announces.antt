-- ===== src/Reactive/Announces.antt =====
-- Which watches the events of ApStore reach.
use qu_v.Prelude.{ℕ, ◌≡◌, ap, ◌↔◌, true, Text, some, [], ◌∷◌, ◌++◌, In, text_eq_iff}
use qu_v.Core.Storage
use qu_v.Core.Storage.{Operations}
use qu_v.As2.Value.{Value}
use qu_v.As2.Vocabulary.{persistent, tier_of}
use qu_v.As2.Audience.Recipients.{includes_iff}
use qu_v.Store.{Stored, Record, Change, ApStore, PutOptions, doc_id}
use qu_v.Store.View.{View, Represents, IsIndexable}
use qu_v.Store.Methods.{emit, put, delete}
use qu_v.Store.Calls.{record_of, put_change, delete_change, put-persistent, delete-view}
use qu_v.Reactive.{concerns, concerns_collection}

-- An event of `id` that reaches the watches of the collections `cs`, and those of `id`.
pub record Reaches (e : Change) (id : Text) (cs : Text → Type 0) : Type 0 where
  pub of_id : (j : Text) → (concerns j e ≡ true) ↔ (id ≡ j)
  pub of_collection : (c : Text) → (concerns_collection c e ≡ true) ↔ cs c

change-Reaches : (e : Change) → Reaches e e.id (λ c. In c e.collections)
unfolding concerns concerns_collection
change-Reaches e = record {
  of_id = λ j. text_eq_iff e.id j;
  of_collection = λ c. includes_iff e.collections c;
}

module _ {S : Type 0} (o : Operations S Stored) (Ok : S → Type 0)
    (laws : Storage.Laws S Stored o Ok) where
  -- On a store that represents a view, a persistent put() that the index can hold emits one event,
  -- which passes the test of watch() for the document's id alone, and the test of watchChildren()
  -- for the collections of the new record alone, whichever the id was in before.
  pub put-Reaches :
      (s : ApStore S) (m : View) (doc : Value) (id : Text) (opts : PutOptions) (now : ℕ)
      → Represents o Ok s.adapter m
      → doc_id doc ≡ some id
      → tier_of opts.durability ≡ some persistent
      → IsIndexable (record_of doc opts)
      → (e : Change) × ((put o s doc opts now).0.changes ≡ s.changes ++ e ∷ [])
        × Reaches e id (λ c. In c opts.collections)
  unfolding emit
  put-Reaches s m doc id opts now rep p q x =
      let (b, e, u) = put-persistent o Ok laws s m doc id opts now rep p q x in
      (put_change id doc opts, ap (λ z. z.0.changes) e, change-Reaches (put_change id doc opts))

  -- On a store that represents a view, a delete() of an id that has a record emits one event, which
  -- passes the test of watch() for that id alone, and the test of watchChildren() for the
  -- collections of that record alone.
  delete-Reaches :
      (s : ApStore S) (m : View) (id : Text) (r : Record)
      → Represents o Ok s.adapter m
      → m id ≡ some r
      → (e : Change) × ((delete o s id).0.changes ≡ s.changes ++ e ∷ [])
        × Reaches e id (λ c. In c r.collections)
  unfolding emit
  delete-Reaches s m id r rep p =
      let (b, e, u) = delete-view o Ok laws s m id r rep p in
      (delete_change id r, ap (λ z. z.0.changes) e, change-Reaches (delete_change id r))
