-- ===== src/Reactive/Settles.antt =====
-- A watch that is left alone has shown its callback what the store holds.
use mathlib.Core.List.{map-append}
use qu_v.Prelude.{
  ℕ, ◌+◌, ◌-◌, ◌≤◌, ◌≡◌, ◌≢◌, refl, sym, ap, ◌∙◌, subst, ◌⊎◌, inl, inr, Bool, true, false, not,
  ◌||◌, Option, none, some, List, [], ◌∷◌, ◌++◌, map, In, In-append_right, ◌==◌, if◌then◌else◌,
  Bool-cases, arith,
}
use qu_v.Reactive.Numbered.{In-middle, In-widen, IsNumbered, IsNumbered-remove, IsNumbered-next}
use qu_v.Reactive.{
  Read, Watch, System, Step, write, announce, serve, resolve, stop, Reachable, started, stepped,
  reread, start, on_change, settle, dispose,
}

-- The value that the callback got last.
unfoldable pub last : {A : Type 0} → List A → Option A
last [] = none
last (x ∷ []) = some x
last (x ∷ y ∷ ys) = last (y ∷ ys)

last-append : {A : Type 0} (xs : List A) (x : A) → last (xs ++ x ∷ []) ≡ some x
unfolding last
last-append [] x = refl
last-append (y ∷ []) x = refl
last-append (y ∷ z ∷ zs) x = last-append (z ∷ zs) x

module _ {A : Type 0} where
  gens : List (Read A) → List ℕ
  gens = map (λ r. r.generation)

  gens-middle :
      (before after : List (Read A)) (r : Read A)
      → gens (before ++ r ∷ after) ≡ gens before ++ r.generation ∷ gens after
  unfolding gens
  gens-middle before after r = map-append (λ (x : Read A). x.generation) before (r ∷ after)

  gens-append : (before after : List (Read A)) → gens (before ++ after) ≡ gens before ++ gens after
  unfolding gens
  gens-append before after = map-append (λ (x : Read A). x.generation) before after

  -- Why the callback will be right or is: a write is not announced yet, or the newest read is
  -- pending and not served, or served with what the store holds, or the callback got that.
  data Reason (w : Watch A) (v : A) (n : ℕ) : Type 0 where
    disposed_of : w.disposed ≡ true → Reason w v n
    to_announce : 1 ≤ n → Reason w v n
    to_serve : In (record { generation = w.generation; seen = none }) w.reads → Reason w v n
    to_resolve : In (record { generation = w.generation; seen = some v }) w.reads → Reason w v n
    shown : last w.called ≡ some v → ¬ In w.generation (gens w.reads) → Reason w v n

  abbrev Invariant : System A → Type 0
  Invariant s =
      IsNumbered s.watch.generation (gens s.watch.reads) × Reason s.watch s.current s.unannounced

  start-Invariant : (v : A) → Invariant (record { watch = start; current = v; unannounced = 0 })
  unfolding start reread gens
  start-Invariant v = ((omega arith, (λ m. m), tt), to_serve (inl refl))

  reread-Invariant :
      (w : Watch A) (v : A) (n : ℕ)
      → IsNumbered w.generation (gens w.reads)
      → Invariant (record { watch = reread w; current = v; unannounced = n })
  unfolding reread gens
  reread-Invariant w v n d = (
    rw (gens-middle w.reads [] (record { generation = w.generation + 1; seen = none }))
        (IsNumbered-next w.generation (gens w.reads) d),
    to_serve (In-append_right _ w.reads _ (inl refl)),
  )

  announce-Invariant :
      (s : System A)
      → Invariant s
      → Invariant (record s { watch = on_change s.watch; unannounced = s.unannounced - 1 })
  unfolding on_change
  announce-Invariant s i = elim (Bool-cases s.watch.disposed) [
    | inl e ↦
        subst
          (λ w.
            Invariant (record { watch = w; current = s.current; unannounced = s.unannounced - 1 }))
          (ap (λ b. if b then s.watch else reread s.watch) (sym e)) (i.0, disposed_of e)
    | inr e ↦
        subst
          (λ w.
            Invariant (record { watch = w; current = s.current; unannounced = s.unannounced - 1 }))
          (ap (λ b. if b then s.watch else reread s.watch) (sym e))
          (reread-Invariant s.watch s.current (s.unannounced - 1) i.0)
  ]

  serve-Reason :
      (s : System A) (before after : List (Read A)) (g : ℕ)
      → s.watch.reads ≡ before ++ record { generation = g; seen = none } ∷ after
      → Reason s.watch s.current s.unannounced
      → Reason
          (record (s.watch) {
            reads = before ++ record { generation = g; seen = some s.current } ∷ after;
          })
          s.current
          s.unannounced
  serve-Reason s before after g e (disposed_of d) = disposed_of d
  serve-Reason s before after g e (to_announce n) = to_announce n
  serve-Reason s before after g e (to_serve m) =
      elim (In-middle _ _ before after (subst (In _) e m)) [
        | inl q ↦ to_resolve (
            In-append_right _ before _
              (inl (ap (λ r. record { generation = r.generation; seen = some s.current }) q)))
        | inr r ↦ to_serve (In-widen _ _ before after r)
      ]
  serve-Reason s before after g e (to_resolve m) =
      elim (In-middle _ _ before after (subst (In _) e m)) [
        | inl q ↦ absurd (cc (ap (λ (r : Read A). r.seen) q))
        | inr r ↦ to_resolve (In-widen _ _ before after r)
      ]
  serve-Reason s before after g e (shown l m) = shown l (λ k. m (
      rw (e, gens-middle before after (record { generation = g; seen = none }))
        (rw (gens-middle before after (record { generation = g; seen = some s.current })) at k)))

  -- The test that a settling promise makes before it calls back.
  abbrev is_superseded : Watch A → ℕ → Bool
  is_superseded w g = w.disposed || not (g == w.generation)

  settle-superseded :
      (w : Watch A) (g : ℕ) (doc : A) → is_superseded w g ≡ true → settle w g doc ≡ w
  unfolding settle
  settle-superseded w g doc e = rw e refl

  settle-newest :
      (w : Watch A) (g : ℕ) (doc : A)
      → is_superseded w g ≡ false
      → settle w g doc ≡ record w { called = w.called ++ doc ∷ [] }
  unfolding settle
  settle-newest w g doc e = rw e refl

  superseded-cases :
      (w : Watch A) (g : ℕ) → is_superseded w g ≡ true → (w.disposed ≡ true) ⊎ (g ≢ w.generation)
  superseded-cases w g e = ground arith

  newest-live :
      (w : Watch A) (g : ℕ) → is_superseded w g ≡ false → (w.disposed ≡ false) × (g ≡ w.generation)
  newest-live w g e = ground arith

  module _ (w : Watch A) (before after : List (Read A)) (g : ℕ) (doc : A) (v : A) (n : ℕ) where
    -- The watch without the read that settles.
    abbrev taken : Watch A
    taken = record w { reads = before ++ after }

    resolve-dropped :
        w.reads ≡ before ++ record { generation = g; seen = some doc } ∷ after
        → is_superseded w g ≡ true
        → Reason w v n
        → Reason taken v n
    resolve-dropped e t (disposed_of d) = disposed_of d
    resolve-dropped e t (to_announce h) = to_announce h
    resolve-dropped e t (to_serve m) = elim (In-middle _ _ before after (subst (In _) e m)) [
      | inl q ↦ absurd (cc (ap (λ (r : Read A). r.seen) q))
      | inr r ↦ to_serve r
    ]
    resolve-dropped e t (to_resolve m) = elim (In-middle _ _ before after (subst (In _) e m)) [
      | inl q ↦ elim (superseded-cases w g t) [
        | inl d ↦ disposed_of d
        | inr k ↦ absurd (k (sym (ap (λ (r : Read A). r.generation) q)))
      ]
      | inr r ↦ to_resolve r
    ]
    resolve-dropped e t (shown l k) = shown l (λ m. k (
        rw (e, gens-middle before after (record { generation = g; seen = some doc }))
          (In-widen _ g (gens before) (gens after) (rw (gens-append before after) at m))))

    resolve-called :
        w.reads ≡ before ++ record { generation = g; seen = some doc } ∷ after
        → is_superseded w g ≡ false
        → ¬ In g (gens (before ++ after))
        → Reason w v n
        → Reason (record taken { called = w.called ++ doc ∷ [] }) v n
    resolve-called e f u (disposed_of d) = disposed_of d
    resolve-called e f u (to_announce h) = to_announce h
    resolve-called e f u (to_serve m) = elim (In-middle _ _ before after (subst (In _) e m)) [
      | inl q ↦ absurd (cc (ap (λ (r : Read A). r.seen) q))
      | inr r ↦ to_serve r
    ]
    resolve-called e f u (to_resolve m) = elim (In-middle _ _ before after (subst (In _) e m)) [
      | inl q ↦
          shown (last-append w.called doc ∙ sym (ap (λ (r : Read A). r.seen) q))
            (subst (λ x. ¬ In x (gens (before ++ after))) (newest-live w g f).1 u)
      | inr r ↦ to_resolve r
    ]
    resolve-called e f u (shown l k) = absurd (
        k (
          rw (e, gens-middle before after (record { generation = g; seen = some doc }))
            (In-append_right _ (gens before) _ (inl (sym (newest-live w g f).1)))))

    resolve-Invariant :
        w.reads ≡ before ++ record { generation = g; seen = some doc } ∷ after
        → Invariant (record { watch = w; current = v; unannounced = n })
        → Invariant (record { watch = settle taken g doc; current = v; unannounced = n })
    resolve-Invariant e i =
        let (d, u) = IsNumbered-remove w.generation g (gens before) (gens after) (
          subst (IsNumbered w.generation)
            (ap gens e ∙ gens-middle before after (record { generation = g; seen = some doc }))
            i.0) in
        let numbered : IsNumbered w.generation (gens (before ++ after)) =
          rw (gens-append before after) d in
        let absent : ¬ In g (gens (before ++ after)) = rw (gens-append before after) u in
        elim (Bool-cases (is_superseded w g)) [
          | inl t ↦
              subst (λ x. Invariant (record { watch = x; current = v; unannounced = n }))
                (sym (settle-superseded taken g doc t)) (numbered, resolve-dropped e t i.1)
          | inr f ↦
              subst (λ x. Invariant (record { watch = x; current = v; unannounced = n }))
                (sym (settle-newest taken g doc f)) (numbered, resolve-called e f absent i.1)
        ]

  serve-Invariant :
      (s : System A) (before after : List (Read A)) (g : ℕ)
      → s.watch.reads ≡ before ++ record { generation = g; seen = none } ∷ after
      → Invariant s
      → Invariant (record s {
        watch = record (s.watch) {
          reads = before ++ record { generation = g; seen = some s.current } ∷ after;
        };
      })
  serve-Invariant s before after g e i = (
    subst (IsNumbered s.watch.generation)
        (ap gens e
          ∙ gens-middle before after (record { generation = g; seen = none })
          ∙ sym (gens-middle before after (record { generation = g; seen = some s.current })))
        i.0,
    serve-Reason s before after g e i.1,
  )

  Step-Invariant : (s t : System A) → Step s t → Invariant s → Invariant t
  unfolding dispose
  Step-Invariant s _ (write _ v) i = (i.0, to_announce (omega arith))
  Step-Invariant s _ (announce _) i = announce-Invariant s i
  Step-Invariant s _ (serve _ b a g e) i = serve-Invariant s b a g e i
  Step-Invariant s _ (resolve _ b a g doc e) i =
      resolve-Invariant s.watch b a g doc s.current s.unannounced e i
  Step-Invariant s _ (stop _) i = (i.0, disposed_of refl)

  Reachable-Invariant : (v : A) (s : System A) → Reachable v s → Invariant s
  Reachable-Invariant v _ started = start-Invariant v
  Reachable-Invariant v t (stepped s _ r k) = Step-Invariant s t k (Reachable-Invariant v s r)

  settled :
      (w : Watch A) (v : A)
      → w.disposed ≡ false
      → w.reads ≡ []
      → Reason w v 0
      → last w.called ≡ some v
  settled w v d e (disposed_of t) = cc (d, t)
  settled w v d e (to_announce h) = absurd (omega arith)
  settled w v d e (to_serve m) = absurd (subst (In _) e m)
  settled w v d e (to_resolve m) = absurd (subst (In _) e m)
  settled w v d e (shown l k) = l

  -- However the store's writes, their announcements, the reads and the settling promises are
  -- interleaved: whenever a watch that is not disposed of has no read pending, and each write has
  -- been announced, the last value that its callback got is what the store holds.
  pub Reachable-last :
      (v : A) (s : System A)
      → Reachable v s
      → s.watch.disposed ≡ false
      → s.watch.reads ≡ []
      → s.unannounced ≡ 0
      → last s.watch.called ≡ some s.current
  Reachable-last v s r d e z =
      settled s.watch s.current d e
        (subst (Reason s.watch s.current) z (Reachable-Invariant v s r).1)

  -- Once disposed of, a watch stays so and its callback is called no more, whatever step follows.
  pub Step-disposed :
      (s t : System A)
      → Step s t
      → s.watch.disposed ≡ true
      → (t.watch.disposed ≡ true) × (t.watch.called ≡ s.watch.called)
  unfolding dispose on_change settle
  Step-disposed s _ (write _ v) d = (d, refl)
  Step-disposed s _ (announce _) d = ground (arith, d)
  Step-disposed s _ (serve _ b a g e) d = (d, refl)
  Step-disposed s _ (resolve _ b a g doc e) d = ground (arith, d)
  Step-disposed s _ (stop _) d = (refl, refl)
