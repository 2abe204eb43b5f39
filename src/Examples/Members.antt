-- ===== src/Examples/Members.antt =====
-- A group that one actor joins, and then leaves.
use qu_v.Prelude.{◌≡◌, sym, ap, subst, Text, codes, false, ite, text_dec, arith}
use qu_v.Core.JsMap.{Entries}
use qu_v.Core.JsMap.Laws.{IsMap}
use qu_v.Core.Memory.{memory_adapter}
use qu_v.Core.Memory.Laws.{memory_adapter-Laws}
use qu_v.Store.{Stored, ApStore}
use qu_v.Store.Keys.{IsClean}
use qu_v.Store.View.{View, Represents}
use qu_v.Store.Methods.{returned}
use qu_v.Groups.{members_collection, add_member, remove_member, is_member}
use qu_v.Groups.Members.{add_member-is_member, remove_member-is_member}
use qu_v.Examples.Notes.{noted_store, noted_view, noted-Represents}

members-IsClean : IsClean (members_collection (codes "g"))
unfolding members_collection
members-IsClean = ground arith

abbrev joined : ApStore (Entries Stored)
joined = (add_member (memory_adapter Stored) (codes "g") noted_store (codes "ann") 5 5).0

joined-Represents : (n : View) × Represents (memory_adapter Stored) IsMap joined.adapter n
joined-Represents =
    let (t, n, e, r, h) =
      add_member-is_member (memory_adapter Stored) IsMap (memory_adapter-Laws Stored) (codes "g")
        noted_store noted_view (codes "ann") 5 5 noted-Represents members-IsClean (omega arith) in
    (n, subst (λ z. Represents (memory_adapter Stored) IsMap z.adapter n) (sym (ap (λ w. w.0) e)) r)

remove_member-is_member_example :
    (t : ApStore (Entries Stored)) × (n : View) × (remove_member
        (memory_adapter Stored)
        (codes "g")
        joined
        (codes "ann")
      ≡ (t, returned tt))
    × Represents (memory_adapter Stored) IsMap t.adapter n
    × ((j : Text)
        → is_member (memory_adapter Stored) (codes "g") t j
          ≡ ite
              (text_dec j (codes "ann"))
              false
              (is_member (memory_adapter Stored) (codes "g") joined j))
remove_member-is_member_example =
    remove_member-is_member (memory_adapter Stored) IsMap (memory_adapter-Laws Stored) (codes "g")
      joined (joined-Represents.0) (codes "ann") (joined-Represents.1)
