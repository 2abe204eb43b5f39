-- ===== src/Store/Fresh.antt =====
-- A fresh store over the in-memory adapter.
use qu_v.Prelude.{refl, [], none}
use qu_v.Core.JsMap.{find}
use qu_v.Core.JsMap.Laws.{IsMap}
use qu_v.Core.Memory.{memory_adapter, get}
use qu_v.Store.{Stored}
use qu_v.Store.View.{View, Represents, stored, indexes, index_entry}

abbrev pub empty_view : View
empty_view id = none

pub empty-Represents : Represents (memory_adapter Stored) IsMap [] empty_view
unfolding get find stored indexes index_entry
empty-Represents = record {
  ok = tt;
  indexable = λ id r e. cc (e);
  objects = λ id. refl;
  index = λ c n id h l e. refl;
  only = λ c k v h p e. cc (e);
}
