-- ===== src/ApCore/Webfinger/Handles.antt =====
-- Handles and their JRD read back.
use qu_v.Prelude.{
  ℕ, ◌≡◌, ◌↔◌, refl, inl, inr, subst, sym, ap, ap₂, ◌∙◌, true, false, Text, Option, some, [], ◌∷◌,
  ◌++◌, length, drop, drop-append, ◌==◌, starts_with, starts_with-append, starts_with_split,
  Bool-cases, Option-cases, All, arith,
}
use qu_v.ApCore.Webfinger.{
  Acct, split_at_sign, is_one_line, is_handle, parse_handle, acct_prefix, parse_acct, acct_text,
  build_acct,
}

-- No `@` stands in the text.
abbrev pub IsPlain : Text → Type 0
IsPlain = All (λ c. (c == b'@') ≡ false)

split_at_sign-append : (u h : Text) → IsPlain u → split_at_sign (u ++ b'@' ∷ h) ≡ some (u, h)
unfolding split_at_sign
split_at_sign-append [] h p = refl
split_at_sign-append (c ∷ u) h p = rw (p.0, split_at_sign, split_at_sign-append u h p.1) refl

parts :
    {a b u h : Text}
    → ◌≡◌ {A = Option (Text × Text)} (some (a, b)) (some (u, h))
    → (a ≡ u) × (b ≡ h)
parts p = (cc, cc)

at_sign :
    (c : ℕ) (cs u h : Text)
    → c ≡ b'@'
    → ◌≡◌ {A = Text} [] u
    → cs ≡ h
    → (c ∷ cs ≡ u ++ b'@' ∷ h) × IsPlain u
at_sign c cs u h p q r = subst (λ z. (c ∷ cs ≡ z ++ b'@' ∷ h) × IsPlain z) q (cc, tt)

past_sign :
    (c : ℕ) (cs v g u h : Text)
    → c == b'@' ≡ false
    → cs ≡ v ++ b'@' ∷ g
    → IsPlain v
    → c ∷ v ≡ u
    → g ≡ h
    → (c ∷ cs ≡ u ++ b'@' ∷ h) × IsPlain u
past_sign c cs v g u h q a b p r =
    subst (λ z. (c ∷ cs ≡ z ++ b'@' ∷ h) × IsPlain z) p
      (ap (◌∷◌ c) (a ∙ ap (λ z. v ++ b'@' ∷ z) r), (q, b))

split_at_sign_inv : (t u h : Text) → split_at_sign t ≡ some (u, h) → (t ≡ u ++ b'@' ∷ h) × IsPlain u
unfolding split_at_sign
split_at_sign_inv [] u h e = cc
split_at_sign_inv (c ∷ cs) u h e = elim (Bool-cases (c == b'@')) [
  | inl q ↦
      let p : ◌≡◌ {A = Option (Text × Text)} (some ([], cs)) (some (u, h)) =
        rw (q, split_at_sign) at e in
      at_sign c cs u h (ground arith) (parts p).0 (parts p).1
  | inr q ↦ elim (Option-cases (split_at_sign cs)) [
    | inl n ↦ cc (rw (q, split_at_sign, n) at e)
    | inr (w, n) ↦
        let p : ◌≡◌ {A = Option (Text × Text)} (some (c ∷ w.0, w.1)) (some (u, h)) =
          rw (q, split_at_sign, n) at e in
        let (a, b) = split_at_sign_inv cs w.0 w.1 n in
        past_sign c cs w.0 w.1 u h q a b (parts p).0 (parts p).1
  ]
]

parse_handle-Handle :
    (t u h : Text)
    → (parse_handle t ≡ some (record { username = u; host = h }))
      ↔ ((t ≡ u ++ b'@' ∷ h) × IsPlain u × (is_handle u h ≡ true))
unfolding parse_handle
parse_handle-Handle t u h = (
  (λ e. elim (Option-cases (split_at_sign t)) [
    | inl n ↦ cc (rw (n, parse_handle) at e)
    | inr (w, n) ↦ elim (Bool-cases (is_handle w.0 w.1)) [
      | inr g ↦ cc (rw (n, parse_handle, g) at e)
      | inl g ↦
          let (a, b) = split_at_sign_inv t w.0 w.1 n in
          let q : ◌≡◌ {A = Option Acct} (some (record { username = w.0; host = w.1 }))
              (some (record { username = u; host = h })) =
            rw (n, parse_handle, g) at e in
          let p : w.0 ≡ u = cc in
          let r : w.1 ≡ h = cc in
          (a ∙ ap₂ (λ x y. x ++ b'@' ∷ y) p r, subst IsPlain p b, ap₂ is_handle (sym p) (sym r) ∙ g)
    ]
  ]),
  (λ (e, p, g). rw (e, parse_handle, split_at_sign-append u h p, g) refl),
)

build_acct-is_handle :
    (u h : Text)
    → is_handle u h ≡ true
    → (build_acct u h ≡ some (acct_text u h)) × (is_one_line h ≡ true)
unfolding build_acct is_handle
build_acct-is_handle [] h e = cc
build_acct-is_handle (c ∷ u) [] e = ground arith
build_acct-is_handle (c ∷ u) (d ∷ h) e = (ground arith, ground arith)

is_handle-build_acct :
    (t u h : Text)
    → build_acct u h ≡ some t
    → is_one_line h ≡ true
    → (t ≡ acct_text u h) × (is_handle u h ≡ true)
unfolding build_acct is_handle
is_handle-build_acct t [] h e o = cc
is_handle-build_acct t (c ∷ u) [] e o = ground arith
is_handle-build_acct t (c ∷ u) (d ∷ h) e o = (ground arith, ground arith)

-- parseAcct() accepts exactly the texts that buildAcct() writes of a username without `@` and of a
-- host in one line, and it gives these two.
pub parse_acct-build_acct :
    (t u h : Text)
    → (parse_acct t ≡ some (record { username = u; host = h }))
      ↔ ((build_acct u h ≡ some t) × IsPlain u × (is_one_line h ≡ true))
unfolding parse_acct acct_text
parse_acct-build_acct t u h = (
  (λ e. elim (Bool-cases (starts_with acct_prefix t)) [
    | inr s ↦ cc (rw (s, parse_acct) at e)
    | inl s ↦
        let (r, q) = starts_with_split acct_prefix t s in
        let d : drop (length acct_prefix) t ≡ r = ap (drop 5) q ∙ drop-append acct_prefix r in
        let (x, y, z) = (parse_handle-Handle r u h).0 (rw (s, parse_acct, d) at e) in
        let (v, w) = build_acct-is_handle u h z in
        (v ∙ ap some (sym (q ∙ ap (λ k. acct_prefix ++ k) x)), y, w)
  ]),
  (λ (x, y, z).
      let (v, w) = is_handle-build_acct t u h x z in
      ap parse_acct v
      ∙ rw (starts_with-append acct_prefix (u ++ b'@' ∷ h), parse_acct)
          ((parse_handle-Handle (u ++ b'@' ∷ h) u h).1 (refl, y, w))),
)
