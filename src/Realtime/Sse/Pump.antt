-- ===== src/Realtime/Sse/Pump.antt =====
-- The chunks that #pump() handles do not depend on how the stream is cut into reads.
use qu_v.Prelude.{
  ℕ, zero, suc, ◌<◌, ◌≤◌, ◌≡◌, refl, sym, ap, ◌∙◌, true, false, Text, Option, none, some, List, [],
  ◌∷◌, ◌++◌, append_assoc, append-nil, length, length-append, ◌==◌, ◌&&◌, Bool-cases, Option-cases,
  inl, inr, arith,
}
use qu_v.Realtime.Sse.{newline, cut_event, drain, pump}

-- The texts of a stream, joined.
abbrev pub flat : List Text → Text
flat [] = []
flat (t ∷ ts) = t ++ flat ts

-- The first event of a text that begins with these characters: none of it is behind.
module _ (c d : ℕ) (t : Text) (p : Text × Text) (e : cut_event (c ∷ d ∷ t) ≡ some p) where
  here_eq : (c == newline && d == newline) ≡ true → ◌≡◌ {A = Text × Text} ([], t) p
  unfolding cut_event
  here_eq q =
      let g : ◌≡◌ {A = Option (Text × Text)} (some ([], t)) (some p) = rw (q, cut_event) at e in cc

  not_none : (c == newline && d == newline) ≡ false → cut_event (d ∷ t) ≡ none → ⊥
  unfolding cut_event
  not_none q n =
      let g : ◌≡◌ {A = Option (Text × Text)} none (some p) = rw (q, n, cut_event) at e in cc

  later_eq :
      (r : Text × Text)
      → (c == newline && d == newline) ≡ false
      → cut_event (d ∷ t) ≡ some r
      → ◌≡◌ {A = Text × Text} (c ∷ r.0, r.1) p
  unfolding cut_event
  later_eq r q n =
      let g : ◌≡◌ {A = Option (Text × Text)} (some (c ∷ r.0, r.1)) (some p) =
        rw (q, n, cut_event) at e in
      cc

-- What is behind the first event is shorter.
cut_event-lt : (b : Text) (p : Text × Text) → cut_event b ≡ some p → length p.1 < length b
cut_event-lt [] p e = unfold cut_event in cc e
cut_event-lt (c ∷ []) p e = unfold cut_event in cc e
cut_event-lt (c ∷ d ∷ t) p e = elim (Bool-cases (c == newline && d == newline)) [
  | inl q ↦ omega (arith, ap (λ z. length z.1) (here_eq c d t p e q))
  | inr q ↦ elim (Option-cases (cut_event (d ∷ t))) [
    | inl n ↦ absurd (not_none c d t p e q n)
    | inr (r, n) ↦
        omega (arith, ap (λ z. length z.1) (later_eq c d t p e r q n), cut_event-lt (d ∷ t) r n)
  ]
]

-- The first event of a text is that of a longer one.
cut_event-append :
    (b y : Text) (p : Text × Text)
    → cut_event b ≡ some p
    → cut_event (b ++ y) ≡ some (p.0, p.1 ++ y)
unfolding cut_event
cut_event-append [] y p e = cc
cut_event-append (c ∷ []) y p e = cc
cut_event-append (c ∷ d ∷ t) y p e = elim (Bool-cases (c == newline && d == newline)) [
  | inl q ↦ rw (q, cut_event) (ap (λ z. some (z.0, z.1 ++ y)) (here_eq c d t p e q))
  | inr q ↦ elim (Option-cases (cut_event (d ∷ t))) [
    | inl n ↦ absurd (not_none c d t p e q n)
    | inr (r, n) ↦
        rw (q, cut_event, cut_event-append (d ∷ t) y r n)
          (ap (λ z. some (z.0, z.1 ++ y)) (later_eq c d t p e r q n))
  ]
]

pub drain-step :
    (f : ℕ) (b : Text) (p : Text × Text)
    → cut_event b ≡ some p
    → drain (suc f) b ≡ (p.0 ∷ (drain f p.1).0, (drain f p.1).1)
unfolding drain
drain-step f b p e = rw (e, drain) refl

drain-stop : (f : ℕ) (b : Text) → cut_event b ≡ none → drain f b ≡ ([], b)
unfolding drain
drain-stop zero b e = refl
drain-stop (suc f) b e = rw (e, drain) refl

-- As much fuel as the buffer is long is enough: more of it changes nothing, and the loop ends by its
-- test, with no event left in the buffer.
pub drain-enough :
    (f g : ℕ) (b : Text)
    → length b ≤ f
    → length b ≤ g
    → (drain f b ≡ drain g b) × (cut_event (drain f b).1 ≡ none)
drain-enough zero g b h k = elim (Option-cases (cut_event b)) [
  | inl n ↦ (drain-stop zero b n ∙ sym (drain-stop g b n), rw (drain-stop zero b n) n)
  | inr (p, n) ↦ absurd (omega (arith, cut_event-lt b p n))
]
drain-enough (suc f) zero b h k = elim (Option-cases (cut_event b)) [
  | inl n ↦ (drain-stop (suc f) b n ∙ sym (drain-stop zero b n), rw (drain-stop (suc f) b n) n)
  | inr (p, n) ↦ absurd (omega (arith, cut_event-lt b p n))
]
drain-enough (suc f) (suc g) b h k = elim (Option-cases (cut_event b)) [
  | inl n ↦ (drain-stop (suc f) b n ∙ sym (drain-stop (suc g) b n), rw (drain-stop (suc f) b n) n)
  | inr (p, n) ↦
      let (e, z) =
        drain-enough f g p.1 (omega (arith, cut_event-lt b p n))
          (omega (arith, cut_event-lt b p n)) in
      (
        drain-step f b p n ∙ ap (λ w. (p.0 ∷ w.0, w.1)) e ∙ sym (drain-step g b p n),
        rw (drain-step f b p n) z,
      )
]

-- Draining a longer buffer drains its first part, and then what is left of it with the rest.
drain-append :
    (f g k : ℕ) (x y : Text)
    → length x ≤ f
    → length (x ++ y) ≤ g
    → length ((drain f x).1 ++ y) ≤ k
    → drain g (x ++ y)
      ≡ ((drain f x).0 ++ (drain k ((drain f x).1 ++ y)).0, (drain k ((drain f x).1 ++ y)).1)
drain-append zero g k x y a b c = elim (Option-cases (cut_event x)) [
  | inl n ↦ rw (drain-stop zero x n) (drain-enough g k (x ++ y) b (rw (drain-stop zero x n) at c)).0
  | inr (p, n) ↦ absurd (omega (arith, cut_event-lt x p n))
]
drain-append (suc f) zero k x y a b c = elim (Option-cases (cut_event x)) [
  | inl n ↦
      rw (drain-stop (suc f) x n)
        (drain-enough zero k (x ++ y) b (rw (drain-stop (suc f) x n) at c)).0
  | inr (p, n) ↦ absurd (omega (arith, cut_event-lt x p n, length-append x y))
]
drain-append (suc f) (suc g) k x y a b c = elim (Option-cases (cut_event x)) [
  | inl n ↦
      rw (drain-stop (suc f) x n)
        (drain-enough (suc g) k (x ++ y) b (rw (drain-stop (suc f) x n) at c)).0
  | inr (p, n) ↦
      let l = cut_event-lt x p n in
      let ih =
        drain-append f g k p.1 y (omega arith)
          (omega (arith, length-append p.1 y, length-append x y)) (rw (drain-step f x p n) at c) in
      drain-step g (x ++ y) (p.0, p.1 ++ y) (cut_event-append x y p n)
      ∙ ap (λ w. (p.0 ∷ w.0, w.1)) ih
      ∙ rw (drain-step f x p n) refl
]

abbrev pub drained : Text → List Text
drained b = (drain (length b) b).0

pump-from :
    (b : Text) (texts : List Text) → cut_event b ≡ none → pump b texts ≡ drained (b ++ flat texts)
unfolding pump
pump-from b [] n = rw (append-nil b) (ap (λ w. w.0) (sym (drain-stop (length b) b n)))
pump-from b (t ∷ texts) n =
    let whole = drain (length (b ++ t)) (b ++ t) in
    let left =
      (drain-enough (length (b ++ t)) (length (b ++ t)) (b ++ t) (omega arith) (omega arith)).1 in
    ap (λ z. whole.0 ++ z) (pump-from whole.1 texts left)
    ∙ sym (
        ap (λ w. w.0)
          (drain-append (length (b ++ t)) (length ((b ++ t) ++ flat texts))
            (length (whole.1 ++ flat texts)) (b ++ t) (flat texts) (omega arith) (omega arith)
            (omega arith)))
    ∙ ap drained (append_assoc b t (flat texts))

-- The chunks that the client handles are those of the whole stream, read at once, however the stream
-- is cut into reads.
pub pump-flat : (texts : List Text) → pump [] texts ≡ (drain (length (flat texts)) (flat texts)).0
unfolding cut_event
pump-flat texts = pump-from [] texts refl
