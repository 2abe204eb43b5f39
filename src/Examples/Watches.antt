-- ===== src/Examples/Watches.antt =====
-- A watch that has shown its first value, and the events of a store with one note.
use qu_v.Prelude.{ℕ, ◌≡◌, refl, some, [], ◌∷◌}
use qu_v.Reactive.{
  System, serve, resolve, Reachable, started, stepped, start, settle, dispose, reread,
}
use qu_v.Reactive.Settles.{last, Reachable-last}

abbrev started_system : System ℕ
started_system = record { watch = start; current = 7; unannounced = 0 }

-- The first read has been served, and its promise has settled.
abbrev served : System ℕ
served = record started_system {
  watch = record start { reads = record { generation = 1; seen = some 7 } ∷ [] };
}

abbrev shown : System ℕ
shown = record served { watch = settle (record (served.watch) { reads = [] }) 1 7 }

shown-Reachable : Reachable 7 shown
unfolding start reread
shown-Reachable =
    stepped served shown (stepped started_system served started (serve started_system [] [] 1 refl))
      (resolve served [] [] 1 7 refl)

Reachable-last_example : last shown.watch.called ≡ some shown.current
unfolding start reread settle
Reachable-last_example = Reachable-last 7 shown shown-Reachable refl refl refl

abbrev stopped : System ℕ
stopped = record served { watch = dispose served.watch }

-- The promise of a watch that was disposed of in the meantime.
abbrev ignored : System ℕ
ignored = record stopped { watch = settle (record (stopped.watch) { reads = [] }) 1 7 }
