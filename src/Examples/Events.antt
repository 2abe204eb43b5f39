-- ===== src/Examples/Events.antt =====
-- A bus with a lasting and a one-shot listener.
use qu_v.Prelude.{ℕ, ◌≡◌, refl, Text, codes, [], ◌∷◌, map, text_eq, text_dec, Bool-cases}
use qu_v.Core.JsMap
use qu_v.Core.JsMap.{find}
use qu_v.Core.JsMap.Laws.{IsMap}
use qu_v.Core.Events.{QuEvents, create, on, once, subscribe, listeners_of, emit}
use qu_v.Core.Events.Emits.{silent, lasting, DistinctIds, emit-lasting}

abbrev change : Text
change = codes "change"

abbrev bus : QuEvents
bus = (once (on create change 1).0 change 2).0

bus-IsMap : IsMap bus.listeners
unfolding once on create subscribe listeners_of find JsMap.put text_dec Bool-cases text_eq
bus-IsMap = ((λ h. h), tt)

bus-DistinctIds : DistinctIds (listeners_of bus change)
unfolding once on create subscribe listeners_of find JsMap.put text_dec Bool-cases text_eq
bus-DistinctIds = ((refl, tt), (tt, tt))

emit-lasting_example :
    listeners_of (emit (silent (λ fn (w : ℕ). w)) bus change 0).bus change
    ≡ lasting (listeners_of bus change)
emit-lasting_example = emit-lasting (λ fn (w : ℕ). w) change bus 0 bus-IsMap bus-DistinctIds

lasting_bus : map (λ l. l.fn) (lasting (listeners_of bus change)) ≡ 1 ∷ []
unfolding once on create subscribe listeners_of find JsMap.put text_dec Bool-cases text_eq lasting
lasting_bus = refl
