-- ===== src/Core/Events.antt =====
-- packages/core/src/events.js: QuEvents. An entry { fn, once } is an object with an identity, `id`, and
-- a listener is a number; what calling it does, to the bus too, is a parameter. The checks that a
-- listener is a function are left out.
pub mod Emits
use qu_v.Prelude.{
  ℕ, suc, Bool, true, false, not, Text, Option, none, some, List, [], ◌∷◌, ◌++◌, length, ◌==◌,
  if◌then◌else◌,
}
use qu_v.Core.JsMap
use qu_v.Core.JsMap.{Entries, find}

pub record Listener : Type 0 where
  pub id : ℕ
  pub fn : ℕ
  pub once : Bool

-- #listeners, and the identity that the next entry gets.
pub record QuEvents : Type 0 where
  pub listeners : Entries (List Listener)
  pub next : ℕ

unfoldable pub create : QuEvents
create = record { listeners = []; next = 0 }

-- this.#listeners.get(event), where an event without a set has no entries
unfoldable pub listeners_of : QuEvents → Text → List Listener
unfolding find
listeners_of b event = elim (find b.listeners event) [ none ↦ [] | some ls ↦ ls ]

-- on() and once(); the entry is what the function that they return removes.
unfoldable pub subscribe : QuEvents → Text → ℕ → Bool → QuEvents × Listener
unfolding listeners_of
subscribe b event fn once =
    let entry : Listener = record { id = b.next; fn = fn; once = once } in
    (
      record {
        listeners = JsMap.put b.listeners event (listeners_of b event ++ entry ∷ []);
        next = suc b.next;
      },
      entry,
    )

unfoldable pub on : QuEvents → Text → ℕ → QuEvents × Listener
unfolding subscribe
on b event fn = subscribe b event fn false

unfoldable pub once : QuEvents → Text → ℕ → QuEvents × Listener
unfolding subscribe
once b event fn = subscribe b event fn true

-- set.delete(entry)
unfoldable pub without : ℕ → List Listener → List Listener
without id [] = []
without id (l ∷ ls) = if l.id == id then ls else l ∷ without id ls

-- An event whose set is empty is removed.
unfoldable pub set_listeners : QuEvents → Text → List Listener → QuEvents
set_listeners b event [] = record b { listeners = JsMap.delete b.listeners event }
set_listeners b event (l ∷ ls) = record b { listeners = JsMap.put b.listeners event (l ∷ ls) }

-- #removeEntry(event, entry)
unfoldable pub remove_entry : QuEvents → Text → Listener → QuEvents
unfolding without set_listeners find
remove_entry b event l = elim (find b.listeners event) [
  | none ↦ b
  | some ls ↦ set_listeners b event (without l.id ls)
]

-- The loop of off() over the entries of the set; what it removes is behind the iteration.
unfoldable pub off_each : QuEvents → Text → ℕ → List Listener → QuEvents
unfolding remove_entry
off_each b event fn [] = b
off_each b event fn (l ∷ ls) =
    off_each (if l.fn == fn then remove_entry b event l else b) event fn ls

-- off(event, fn)
unfoldable pub off : QuEvents → Text → ℕ → QuEvents
unfolding off_each listeners_of
off b event fn = off_each b event fn (listeners_of b event)

-- listenerCount(event)
unfoldable pub listener_count : QuEvents → Text → ℕ
unfolding listeners_of
listener_count b event = length (listeners_of b event)

-- The bus and the rest of the world, and whether an exception is under way.
pub record State (W : Type 0) : Type 0 where
  pub bus : QuEvents
  pub world : W
  pub has_thrown : Bool

module _ {W : Type 0} (call : ℕ → QuEvents → W → State W) where
  -- The loop of emit() over its snapshot of the set.
  unfoldable pub emit_each : Text → List Listener → QuEvents → W → State W
  unfolding remove_entry
  emit_each event [] b w = record { bus = b; world = w; has_thrown = false }
  emit_each event (l ∷ ls) b w =
      let s = call l.fn (if l.once then remove_entry b event l else b) w in
      let rest = emit_each event ls s.bus s.world in if s.has_thrown then s else rest

  -- emit(event, ...args), where the arguments are part of what `call` does
  unfoldable pub emit : QuEvents → Text → W → State W
  unfolding emit_each listeners_of
  emit b event w = emit_each event (listeners_of b event) b w
