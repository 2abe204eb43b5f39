-- ===== src/Store.antt =====
-- packages/ap-store/src/store.js: ApStore, over any ordered key-value adapter.
-- The bus is the list of `change` events emitted so far, oldest first; Date.now() is an argument.
pub mod Methods
pub mod Keys
pub mod View
pub mod Index
pub mod Refines
pub mod Erases
pub mod Children
pub mod Listing
pub mod Newest
pub mod Calls
pub mod Fresh
pub mod Sessions
use qu_v.Prelude.{
  ℕ, Bool, true, false, not, Text, codes, Option, none, some, List, [], ◌∷◌, ◌++◌, map, length,
  take, drop, ◌==◌, if◌then◌else◌, text_ltb,
}
use mathlib.Core.Option
use qu_v.Core.Cursor
use qu_v.Core.Cursor.{CursorError, encode_cursor, separator}
use qu_v.Core.Storage.{Operations}
use qu_v.Core.Volatile
use qu_v.Core.Volatile.{Volatile}
use qu_v.As2.Value.{Value, get_field, as_text}
use qu_v.As2.Vocabulary.{Tier}

-- What the adapter holds: { ts, doc, collections } under obj/ keys, an id under idx/ keys.
pub record Record : Type 0 where
  pub ts : ℕ
  pub doc : Value
  pub collections : List Text

pub data Stored : Type 0 where
  stored_record : Record → Stored
  stored_id : Text → Stored

-- What the volatile adapter holds: documents and ids.
pub data Kept : Type 0 where
  kept_doc : Value → Kept
  kept_id : Text → Kept

-- The payload of a `change` event; `doc` is none for null.
pub record Change : Type 0 where
  pub id : Text
  pub doc : Option Value
  pub tier : Tier
  pub collections : List Text
  pub session_id : Option Text
  pub ts : Option ℕ

pub data StoreError : Type 0 where
  missing_id unknown_tier missing_session : StoreError
  bad_cursor : CursorError → StoreError

pub record ApStore (S : Type 0) : Type 0 where
  pub adapter : S
  pub volatile : Volatile Kept
  pub dedup : Volatile Bool
  pub changes : List Change

-- The options of put(); `durability` is any text, and `ts` has been defaulted by the caller.
pub record PutOptions : Type 0 where
  pub collections : List Text
  pub durability : Text
  pub session_id : Option Text
  pub ts : ℕ

unfoldable pub object_key : Text → Text
object_key id = codes "obj/" ++ id

-- COLLECTION_DELIM, '\x01'
abbrev pub collection_delim : ℕ
collection_delim = 1

unfoldable pub index_key_prefix : Text → Text
index_key_prefix c = codes "idx/" ++ (c ++ collection_delim ∷ [])

unfoldable pub index_key : Text → ℕ → Text → Cursor.Result Text
unfolding index_key_prefix
index_key c ts id = elim (encode_cursor (record { ts = ts; id = id })) [
  | Cursor.ok cursor ↦ Cursor.ok (index_key_prefix c ++ cursor)
  | Cursor.err e ↦ Cursor.err e
]

unfoldable pub as_record : Option Stored → Option Record
as_record (some (stored_record r)) = some r
as_record _ = none

unfoldable pub as_id : Stored → Text
as_id (stored_id id) = id
as_id (stored_record r) = codes "[object Object]"

-- typeof doc.id === 'string' && doc.id.length > 0
unfoldable pub doc_id : Value → Option Text
unfolding get_field as_text
doc_id doc = elim (as_text (get_field doc (codes "id"))) [
  | none ↦ none
  | some id ↦ if length id == 0 then none else some id
]

-- A state of the adapter, and the exception that ended the operation, if one did.
abbrev pub Attempt : Type 0 → Type 0
Attempt S = S × Option CursorError

abbrev pub then_on : {S : Type 0} → Attempt S → (S → Attempt S) → Attempt S
then_on (a, none) f = f a
then_on (a, some e) f = (a, some e)

module _ {S : Type 0} (o : Operations S Stored) where
  -- for (const collectionId of collections) await adapter.put(indexKey(…), id)
  unfoldable pub index_in : List Text → ℕ → Text → S → Attempt S
  index_in [] ts id a = (a, none)
  index_in (c ∷ cs) ts id a = elim (index_key c ts id) [
    | Cursor.ok k ↦ index_in cs ts id (o.put a k (stored_id id))
    | Cursor.err e ↦ (a, some e)
  ]

  -- for (const collectionId of collections) await adapter.delete(indexKey(…))
  unfoldable pub unindex : List Text → ℕ → Text → S → Attempt S
  unindex [] ts id a = (a, none)
  unindex (c ∷ cs) ts id a = elim (index_key c ts id) [
    | Cursor.ok k ↦ unindex cs ts id (o.delete a k)
    | Cursor.err e ↦ (a, some e)
  ]

  unfoldable pub read_record : S → Text → Option Record
  unfolding as_record
  read_record a id = as_record (o.get a (object_key id))

  -- if (existing) delete its old index entries
  unfoldable pub forget_index : Option Record → Text → S → Attempt S
  forget_index none id a = (a, none)
  forget_index (some r) id a = unindex r.collections r.ts id a

  -- The persistent branch of put(), up to the event.
  unfoldable pub write_record : S → Text → Record → Attempt S
  write_record a id r =
      then_on (forget_index (read_record a id) id a)
        λ b. index_in r.collections r.ts id (o.put b (object_key id) (stored_record r))

  -- delete(), up to the event, of an id whose record was found.
  unfoldable pub erase_record : S → Text → Record → Attempt S
  erase_record a id r = unindex r.collections r.ts id (o.delete a (object_key id))
