-- ===== src/Reactive.antt =====
-- packages/reactive/src/watch.js: watch() and watchChildren(), which read a store again on each event.
-- `A` is what one read gives: a document or null, or the list of a collection's documents.
pub mod Numbered
pub mod Settles
pub mod Announces
use qu_v.Prelude.{
  ℕ, ◌+◌, ◌-◌, ◌≡◌, Bool, true, false, Text, Option, none, some, List, [], ◌∷◌, ◌++◌, ◌==◌, ◌||◌,
  not, if◌then◌else◌, text_eq,
}
use qu_v.As2.Vocabulary.{includes}
use qu_v.Store.{Change}

-- The test of watch(): event.id === id
unfoldable pub concerns : Text → Change → Bool
concerns id e = text_eq e.id id

-- The test of watchChildren(): (event.collections ?? []).includes(collectionId)
unfoldable pub concerns_collection : Text → Change → Bool
concerns_collection c e = includes e.collections c

-- One call of reread() whose promise is still pending: its generation, and what the store read for
-- it, once the store has.
pub record Read (A : Type 0) : Type 0 where
  pub generation : ℕ
  pub seen : Option A

-- The variables that the closures share, the pending reads, and the callback's arguments so far.
pub record Watch (A : Type 0) : Type 0 where
  pub generation : ℕ
  pub disposed : Bool
  pub reads : List (Read A)
  pub called : List A

module _ {A : Type 0} where
  -- reread(), up to the promise
  unfoldable pub reread : Watch A → Watch A
  reread w = record w {
    generation = w.generation + 1;
    reads = w.reads ++ record { generation = w.generation + 1; seen = none } ∷ [];
  }

  -- The state that watch() returns with.
  unfoldable pub start : Watch A
  unfolding reread
  start = reread (record { generation = 0; disposed = false; reads = []; called = [] })

  -- An event that passed the test; nothing is called once the watch has unsubscribed.
  unfoldable pub on_change : Watch A → Watch A
  unfolding reread
  on_change w = if w.disposed then w else reread w

  -- The continuation of reread(), for a read of a generation.
  unfoldable pub settle : Watch A → ℕ → A → Watch A
  settle w g doc =
      if w.disposed || not (g == w.generation)
      then w
      else record w { called = w.called ++ doc ∷ [] }

  -- The function that watch() returns.
  unfoldable pub dispose : Watch A → Watch A
  dispose w = record w { disposed = true }

-- A watch beside the store: what a read gives now, and how many writes have yet to be announced.
pub record System (A : Type 0) : Type 0 where
  pub watch : Watch A
  pub current : A
  pub unannounced : ℕ

-- The steps, in any order: the store writes, and announces a write later; a pending read is served,
-- and its promise settles later; the watch is disposed of.
pub data Step {A : Type 0} : System A → System A → Type 0 where
  write :
      (s : System A) (v : A) → Step s (record s { current = v; unannounced = s.unannounced + 1 })
  announce :
      (s : System A)
      → Step s (record s { watch = on_change s.watch; unannounced = s.unannounced - 1 })
  serve :
      (s : System A) (before after : List (Read A)) (g : ℕ)
      → s.watch.reads ≡ before ++ record { generation = g; seen = none } ∷ after
      → Step s (record s {
        watch = record (s.watch) {
          reads = before ++ record { generation = g; seen = some s.current } ∷ after;
        };
      })
  resolve :
      (s : System A) (before after : List (Read A)) (g : ℕ) (doc : A)
      → s.watch.reads ≡ before ++ record { generation = g; seen = some doc } ∷ after
      → Step s (record s { watch = settle (record (s.watch) { reads = before ++ after }) g doc })
  stop : (s : System A) → Step s (record s { watch = dispose s.watch })

-- The states that a watch can reach after it has started on a store that holds `v`.
pub data Reachable {A : Type 0} (v : A) : System A → Type 0 where
  started : Reachable v (record { watch = start; current = v; unannounced = 0 })
  stepped : (s t : System A) → Reachable v s → Step s t → Reachable v t
