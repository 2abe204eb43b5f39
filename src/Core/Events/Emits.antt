-- ===== src/Core/Events/Emits.antt =====
-- Whom emit() calls, and which listeners are left.
use qu_v.Prelude.{
  ℕ, ◌≡◌, refl, sym, ap, ◌∙◌, subst, Bool, true, false, Text, none, some, List, [], ◌∷◌, ◌++◌,
  append_assoc, append-nil, map, All, ◌==◌, if◌then◌else◌, ite, text_dec, if_pos, Bool-cases,
  Option-cases, inl, inr, arith,
}
use qu_v.Core.JsMap.{find}
use qu_v.Core.JsMap.Laws.{IsMap, find-put, find-delete, put-IsMap, delete-IsMap}
use qu_v.Core.Events.{
  Listener, QuEvents, State, listeners_of, without, set_listeners, remove_entry, emit_each, emit,
}

-- A call that appends the listener to a log, and changes the bus in any way.
abbrev pub logged : (ℕ → QuEvents → QuEvents) → ℕ → QuEvents → List ℕ → State (List ℕ)
logged act fn b log = record { bus = act fn b; world = log ++ fn ∷ []; has_thrown = false }

emit_each-log :
    (act : ℕ → QuEvents → QuEvents) (event : Text) (ls : List Listener) (b : QuEvents)
    (log : List ℕ)
    → (emit_each (logged act) event ls b log).world ≡ log ++ map (λ l. l.fn) ls
unfolding emit_each
emit_each-log act event [] b log = sym (append-nil log)
emit_each-log act event (l ∷ ls) b log =
    emit_each-log act event ls _ (log ++ l.fn ∷ [])
    ∙ append_assoc log (l.fn ∷ []) (map (λ l. l.fn) ls)

-- emit() calls each listener that is registered for the event when it starts, once and in the order
-- of registration, whatever the listeners do to the bus meanwhile, where none of them throws.
pub emit-log :
    (act : ℕ → QuEvents → QuEvents) (b : QuEvents) (event : Text) (log : List ℕ)
    → (emit (logged act) b event log).world ≡ log ++ map (λ l. l.fn) (listeners_of b event)
unfolding emit
emit-log act b event log = emit_each-log act event (listeners_of b event) b log

if_yes : {A : Type 0} (event : Text) (a b : A) → ite (text_dec event event) a b ≡ a
if_yes event a b = if_pos (text_dec event event) refl a b

module _ (b : QuEvents) (event : Text) (m : IsMap b.listeners) where
  listeners_of-set :
      (ls : List Listener)
      → (listeners_of (set_listeners b event ls) event ≡ ls)
        × IsMap (set_listeners b event ls).listeners
  unfolding listeners_of set_listeners
  listeners_of-set [] = (
    rw
        (
          find-delete b.listeners event event m,
          listeners_of,
          if_yes event none (find b.listeners event),
        )
        refl,
    delete-IsMap b.listeners event m,
  )
  listeners_of-set (l ∷ ls) = (
    rw
        (
          find-put b.listeners event event (l ∷ ls),
          listeners_of,
          if_yes event (some (l ∷ ls)) (find b.listeners event),
        )
        refl,
    put-IsMap b.listeners event (l ∷ ls) m,
  )

  -- The set of the event loses the entry.
  listeners_of-remove :
      (l : Listener)
      → (listeners_of (remove_entry b event l) event ≡ without l.id (listeners_of b event))
        × IsMap (remove_entry b event l).listeners
  unfolding remove_entry
  listeners_of-remove l = elim (Option-cases (find b.listeners event)) [
    | inl n ↦ (
      rw (n, remove_entry) (unfold listeners_of in rw (n, listeners_of) refl),
      rw (n, remove_entry) m,
    )
    | inr (ls, n) ↦
        let (e, z) = listeners_of-set (without l.id ls) in
        (
          rw (n, remove_entry)
              (e ∙ ap (without l.id) (unfold listeners_of in rw (n, listeners_of) refl)),
          rw (n, remove_entry) z,
        )
  ]

-- No entry of the list has this identity.
abbrev pub Lacks : ℕ → List Listener → Type 0
Lacks id = All (λ l. (l.id == id) ≡ false)

abbrev pub DistinctIds : List Listener → Type 0
DistinctIds [] = Unit
DistinctIds (l ∷ ls) = Lacks l.id ls × DistinctIds ls

without-append :
    (pre ls : List Listener) (l : Listener)
    → Lacks l.id pre
    → without l.id (pre ++ l ∷ ls) ≡ pre ++ ls
unfolding without
without-append [] ls l h = let e : (l.id == l.id) ≡ true = ground arith in rw (e, without) refl
without-append (p ∷ pre) ls l h = rw (h.0, without) (ap (◌∷◌ p) (without-append pre ls l h.1))

-- The entries of on().
unfoldable pub lasting : List Listener → List Listener
lasting [] = []
lasting (l ∷ ls) = let rest = lasting ls in if l.once then rest else l ∷ rest

-- Calls that leave the bus alone, none of which throws.
abbrev pub silent : {W : Type 0} → (ℕ → W → W) → ℕ → QuEvents → W → State W
silent act fn b w = record { bus = b; world = act fn w; has_thrown = false }

Lacks-snoc :
    (id : ℕ) (pre : List Listener) (l : Listener)
    → Lacks id pre
    → (l.id == id) ≡ false
    → Lacks id (pre ++ l ∷ [])
Lacks-snoc id [] l h e = (e, tt)
Lacks-snoc id (p ∷ pre) l h e = (h.0, Lacks-snoc id pre l h.1 e)

-- Each entry of the second list has an identity that the first lacks.
abbrev Apart : List Listener → List Listener → Type 0
Apart pre = All (λ l. Lacks l.id pre)

Apart-snoc :
    (pre ls : List Listener) (l : Listener)
    → Apart pre ls
    → Lacks l.id ls
    → Apart (pre ++ l ∷ []) ls
Apart-snoc pre [] l h k = tt
Apart-snoc pre (x ∷ ls) l h k =
    (Lacks-snoc x.id pre l h.0 (ground (arith, k.0)), Apart-snoc pre ls l h.1 k.1)

module _ {W : Type 0} (act : ℕ → W → W) (event : Text) where
  emit_each-lasting :
      (ls pre : List Listener) (b : QuEvents) (w : W)
      → IsMap b.listeners
      → listeners_of b event ≡ pre ++ ls
      → DistinctIds ls
      → Apart pre ls
      → listeners_of (emit_each (silent act) event ls b w).bus event ≡ pre ++ lasting ls
  unfolding emit_each lasting
  emit_each-lasting [] pre b w m e d a = e
  emit_each-lasting (l ∷ ls) pre b w m e d a =
      let Goal : Bool → Type 0 = λ z.
        listeners_of
          (emit_each (silent act) event ls (if z then remove_entry b event l else b)
            (act l.fn w)).bus
          event
        ≡ pre ++ (if z then lasting ls else l ∷ lasting ls) in
      elim (Bool-cases l.once) [
        | inl o ↦
            let (f, n) = listeners_of-remove b event m l in
            let g = f ∙ ap (without l.id) e ∙ without-append pre ls l a.0 in
            subst Goal (sym o)
              (emit_each-lasting ls pre (remove_entry b event l) (act l.fn w) n g d.1 a.1)
        | inr o ↦ subst Goal (sym o) (
            emit_each-lasting ls (pre ++ l ∷ []) b (act l.fn w) m
              (e ∙ sym (append_assoc pre (l ∷ []) ls)) d.1 (Apart-snoc pre ls l a.1 d.0)
            ∙ append_assoc pre (l ∷ []) (lasting ls))
      ]

  nil-Apart : (ls : List Listener) → Apart [] ls
  nil-Apart [] = tt
  nil-Apart (l ∷ ls) = (tt, nil-Apart ls)

  -- After emit() the listeners of the event are those that on() registered, in their order, and none
  -- of once(), where the entries are distinct, and the listeners that are called neither throw nor
  -- change the bus.
  pub emit-lasting :
      (b : QuEvents) (w : W)
      → IsMap b.listeners
      → DistinctIds (listeners_of b event)
      → listeners_of (emit (silent act) b event w).bus event ≡ lasting (listeners_of b event)
  unfolding emit
  emit-lasting b w m d =
      emit_each-lasting (listeners_of b event) [] b w m refl d (nil-Apart (listeners_of b event))
