-- ===== src/Store/View.antt =====
-- The abstract store: a partial map from ids to records. The adapter represents it when each
-- record stands under its object key, and the index holds one entry for each collection of it.
use qu_v.Prelude.{
  ℕ, ◌<◌, ◌≡◌, ◌≢◌, Bool, true, false, Text, Option, none, some, [], ite, text_dec, ◌==◌, ◌&&◌, All,
  starts_with,
}
use qu_v.Core.Cursor.RoundTrip.{ts_limit}
use qu_v.Core.Storage.{Operations}
use qu_v.As2.Vocabulary.{includes}
use qu_v.Store.{Stored, stored_record, stored_id, Record, object_key, index_key_prefix}
use qu_v.Store.Keys.{IsClean, index_text}

-- Which record each id has.
abbrev pub View : Type 0
View = Text → Option Record

abbrev pub update : View → Text → Option Record → View
update m id r j = ite (text_dec j id) r (m j)

-- A record that the index can hold: clean collections, and a timestamp of at most 15 digits.
pub record IsIndexable (r : Record) : Type 0 where
  pub clean : All IsClean r.collections
  pub fits : r.ts < ts_limit

-- The record of an id is indexed under a collection at a timestamp.
unfoldable pub indexes : Option Record → Text → ℕ → Bool
indexes none c n = false
indexes (some r) c n = n == r.ts && includes r.collections c

unfoldable pub index_entry : Bool → Text → Option Stored
index_entry true id = some (stored_id id)
index_entry false id = none

unfoldable pub stored : Option Record → Option Stored
stored none = none
stored (some r) = some (stored_record r)

module _ {S : Type 0} (o : Operations S Stored) (Ok : S → Type 0) where
  pub record Represents (a : S) (m : View) : Type 0 where
    pub ok : Ok a
    pub indexable : (id : Text) (r : Record) → m id ≡ some r → IsIndexable r × (id ≢ [])
    pub objects : (id : Text) → o.get a (object_key id) ≡ stored (m id)
    pub index :
        (c : Text) (n : ℕ) (id : Text)
        → IsClean c
        → n < ts_limit
        → id ≢ []
        → o.get a (index_text c n id) ≡ index_entry (indexes (m id) c n) id
    pub only :
        (c k : Text) (v : Stored)
        → IsClean c
        → starts_with (index_key_prefix c) k ≡ true
        → o.get a k ≡ some v
        → (n : ℕ) × (id : Text) × (k ≡ index_text c n id) × (n < ts_limit) × (id ≢ [])
