-- ===== src/Examples/Notes.antt =====
-- A store with one note in an outbox.

use qu_v.Prelude.{
  ℕ, ◌≡◌, ◌≢◌, ◌↔◌, refl, sym, ap, subst, In, Text, codes, some, none, [], ◌∷◌, map, reverse, take,
  arith, text_eq, text_dec, if_pos, Bool-cases,
}
use qu_v.Prelude.Sorting.{Ascending}
use qu_v.Core.JsMap.{Entries}
use qu_v.Core.JsMap.Laws.{IsMap}
use qu_v.Core.Memory.{memory_adapter}
use qu_v.Core.Memory.Laws.{memory_adapter-Laws}
use qu_v.As2.Value.{Value, text, object, field, end, get_field, lookup_field, as_text}
use qu_v.As2.Vocabulary.{persistent, tier_of}
use qu_v.Store.{Stored, Record, ApStore, PutOptions, doc_id, write_record}
use qu_v.Store.Keys.{IsClean}
use qu_v.Store.View.{View, Represents, IsIndexable, update}
use qu_v.Store.Fresh.{empty_view, empty-Represents}
use qu_v.Store.Methods.{create, emit, returned, put, delete, get_children, get_children_since}
use qu_v.Store.Calls.{record_of, put_change, delete_change, put-persistent, delete-view}
use qu_v.Store.Refines.{write_record-Represents}
use qu_v.Store.Children.{IsRow, After}
use qu_v.Store.Listing.{get_children_since-rows}
use qu_v.Store.Newest.{get_children-newest}

abbrev pub note_id : Text
note_id = codes "n1"

abbrev pub outbox : Text
outbox = codes "outbox"

abbrev pub note : Value
note = object (field (codes "id") (text note_id) (field (codes "content") (text (codes "hi")) end))

abbrev pub options : PutOptions
options = record {
  collections = outbox ∷ [];
  durability = codes "persistent";
  session_id = none;
  ts = 5;
}

abbrev pub stored_note : Record
stored_note = record_of note options

note_id-ne : note_id ≢ []
note_id-ne e = cc (e)

pub doc_id-note : doc_id note ≡ some note_id
unfolding doc_id get_field lookup_field as_text text_dec Bool-cases text_eq
doc_id-note = refl

pub tier_of-options : tier_of options.durability ≡ some persistent
unfolding tier_of text_eq
tier_of-options = refl

pub stored_note-IsIndexable : IsIndexable stored_note
stored_note-IsIndexable = record { clean = (ground arith, tt); fits = omega arith }

noted_write :
    (b : Entries Stored) × (write_record (memory_adapter Stored) [] note_id stored_note ≡ (b, none))
    × Represents (memory_adapter Stored) IsMap b (update empty_view note_id (some stored_note))
noted_write =
    write_record-Represents (memory_adapter Stored) IsMap (memory_adapter-Laws Stored) [] empty_view
      note_id stored_note empty-Represents note_id-ne stored_note-IsIndexable

put-persistent_example :
    (b : Entries Stored) × (put (memory_adapter Stored) (create []) note options 7 ≡ (
      emit (record (create []) { adapter = b }) (put_change note_id note options),
      returned note,
    ))
    × Represents (memory_adapter Stored) IsMap b (update empty_view note_id (some stored_note))
unfolding create
put-persistent_example =
    put-persistent (memory_adapter Stored) IsMap (memory_adapter-Laws Stored) (create []) empty_view
      note note_id options 7 empty-Represents doc_id-note tier_of-options stored_note-IsIndexable

-- The adapter with the note in it.
abbrev noted : Entries Stored
noted = (write_record (memory_adapter Stored) [] note_id stored_note).0

abbrev pub noted_view : View
noted_view = update empty_view note_id (some stored_note)

abbrev pub noted_store : ApStore (Entries Stored)
noted_store = record (create []) { adapter = noted }

pub noted_view-note : noted_view note_id ≡ some stored_note
noted_view-note = if_pos (text_dec note_id note_id) refl _ _

noted_view-other : noted_view (codes "n2") ≡ none
unfolding text_dec Bool-cases text_eq
noted_view-other = refl

pub noted-Represents : Represents (memory_adapter Stored) IsMap noted noted_view
noted-Represents =
    let (b, e, r) = noted_write in
    subst (λ x. Represents (memory_adapter Stored) IsMap x noted_view) (sym (ap (λ w. w.0) e)) r

delete-view_example :
    (b : Entries Stored) × (delete (memory_adapter Stored) noted_store note_id ≡ (
      emit (record noted_store { adapter = b }) (delete_change note_id stored_note),
      returned tt,
    ))
    × Represents (memory_adapter Stored) IsMap b (update noted_view note_id none)
delete-view_example =
    delete-view (memory_adapter Stored) IsMap (memory_adapter-Laws Stored) noted_store noted_view
      note_id stored_note noted-Represents noted_view-note

pub outbox-IsClean : IsClean outbox
outbox-IsClean = stored_note-IsIndexable.clean.0

get_children_since-rows_example :
    ((cur : Text) (d : Value)
      → In (cur, d) (get_children_since (memory_adapter Stored) noted_store outbox none none)
        ↔ (IsRow noted_view outbox cur d × After none cur))
    × Ascending
        (map (λ z. z.0) (get_children_since (memory_adapter Stored) noted_store outbox none none))
    × ((n : ℕ)
        → get_children_since (memory_adapter Stored) noted_store outbox none (some n)
          ≡ take n (get_children_since (memory_adapter Stored) noted_store outbox none none))
get_children_since-rows_example =
    get_children_since-rows (memory_adapter Stored) IsMap (memory_adapter-Laws Stored) noted_store
      noted_view outbox noted-Represents outbox-IsClean none

get_children-newest_example :
    (get_children (memory_adapter Stored) noted_store outbox none
      ≡ reverse (
          map (λ z. z.1) (get_children_since (memory_adapter Stored) noted_store outbox none none)))
    × ((n : ℕ)
        → get_children (memory_adapter Stored) noted_store outbox (some n)
          ≡ take n (get_children (memory_adapter Stored) noted_store outbox none))
get_children-newest_example =
    get_children-newest (memory_adapter Stored) IsMap (memory_adapter-Laws Stored) noted_store
      noted_view outbox noted-Represents outbox-IsClean
