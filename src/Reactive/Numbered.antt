-- ===== src/Reactive/Numbered.antt =====
-- The numbers of the reads that are under way.
use qu_v.Prelude.{
  ℕ, ◌+◌, ◌≤◌, ◌≡◌, sym, ◌⊎◌, inl, inr, List, [], ◌∷◌, ◌++◌, In, In-append_cases, In-append_left,
  In-append_right, arith,
}

pub In-middle :
    {B : Type 0} (x y : B) (xs ys : List B) → In x (xs ++ y ∷ ys) → (x ≡ y) ⊎ In x (xs ++ ys)
In-middle x y xs ys h = elim (In-append_cases x xs (y ∷ ys) h) [
  | inl l ↦ inr (In-append_left x xs ys l)
  | inr (inl e) ↦ inl e
  | inr (inr r) ↦ inr (In-append_right x xs ys r)
]

pub In-widen : {B : Type 0} (x y : B) (xs ys : List B) → In x (xs ++ ys) → In x (xs ++ y ∷ ys)
In-widen x y xs ys h = elim (In-append_cases x xs ys h) [
  | inl l ↦ In-append_left x xs (y ∷ ys) l
  | inr r ↦ In-append_right x xs (y ∷ ys) (inr r)
]

-- No number stands twice, and none is above `g`.
abbrev pub IsNumbered : ℕ → List ℕ → Type 0
IsNumbered g [] = Unit
IsNumbered g (n ∷ ns) = (n ≤ g) × (¬ In n ns) × IsNumbered g ns

pub IsNumbered-remove :
    (g n : ℕ) (xs ys : List ℕ)
    → IsNumbered g (xs ++ n ∷ ys)
    → IsNumbered g (xs ++ ys) × (¬ In n (xs ++ ys))
IsNumbered-remove g n [] ys h = (h.2, h.1)
IsNumbered-remove g n (x ∷ xs) ys h =
    let (d, k) = IsNumbered-remove g n xs ys h.2 in
    (
      (h.0, (λ m. h.1 (In-widen x n xs ys m)), d),
      (λ m. elim m [ inl e ↦ h.1 (In-append_right x xs (n ∷ ys) (inl (sym e))) | inr r ↦ k r ]),
    )

pub IsNumbered-above : (g n : ℕ) (ns : List ℕ) → IsNumbered g ns → In n ns → n ≤ g
IsNumbered-above g n [] h m = absurd m
IsNumbered-above g n (k ∷ ns) h m = elim m [
  | inl e ↦ rw e h.0
  | inr r ↦ IsNumbered-above g n ns h.2 r
]

pub IsNumbered-next :
    (g : ℕ) (ns : List ℕ) → IsNumbered g ns → IsNumbered (g + 1) (ns ++ (g + 1) ∷ [])
IsNumbered-next g [] h = (omega arith, (λ m. m), tt)
IsNumbered-next g (n ∷ ns) h = (
  (let a = h.0 in omega arith),
  (λ m. elim (In-append_cases n ns ((g + 1) ∷ []) m) [
    | inl l ↦ h.1 l
    | inr (inl e) ↦ (let a = h.0 in omega arith)
    | inr (inr z) ↦ z
  ]),
  IsNumbered-next g ns h.2,
)
