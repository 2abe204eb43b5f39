-- ===== src/Runtime/Names.antt =====
-- The names of files, and the keys that are read from them.
use qu_v.Prelude.{
  ℕ, ◌≡◌, ◌↔◌, refl, sym, ap, ◌∙◌, subst, Bool, true, false, Text, Option, none, some, List, [],
  ◌∷◌, ◌++◌, take, reverse, length, length-append, In, inl, inr, text_eq, text_eq-ne, Option-cases,
  Bool-cases, arith,
}
use qu_v.Prelude.Sorting.{Distinct, Ascending-ext}
use qu_v.Core.JsMap.Laws.{IsMap}
use qu_v.Core.Storage.{keys}
use qu_v.Core.Listing.{select_keys}
use qu_v.Core.Listing.Laws.{
  In-select_keys, select_keys-Ascending, select_keys-reverse, select_keys-limit,
}
use qu_v.Runtime.{Dir, Platform, extension, strip_json, filename_for, file_of, file_keys, bind}

strip_json-append : (n : Text) → strip_json (n ++ extension) ≡ some n
unfolding strip_json text_eq
strip_json-append [] = refl
strip_json-append (c ∷ n) =
    let longer : text_eq (c ∷ (n ++ extension)) extension ≡ false =
      text_eq-ne (c ∷ (n ++ extension)) extension
        (λ e. absurd (omega (arith, ap (λ z. length z) e, length-append n extension))) in
    rw (longer, strip_json, strip_json-append n) refl

-- What the adapter relies on: a key that can be encoded is decoded again, JSON reads what it printed,
-- and readdir() lists each name once.
pub record IsFaithful {V : Type 0} (p : Platform V) : Type 0 where
  pub decodes : (k n : Text) → p.encode k ≡ some n → p.decode n ≡ some k
  pub parses : (v : V) → p.parse (p.stringify v) ≡ some v
  pub In-readdir : (d : Dir) (n : Text) → IsMap d → In n (p.readdir d) ↔ In n (keys d)
  pub readdir-Distinct : (d : Dir) → IsMap d → Distinct (p.readdir d)

module _ {V : Type 0} (p : Platform V) (faithful : IsFaithful p) where
  -- The name of the key's file, which the file system takes.
  abbrev pub IsName : Text → Text → Type 0
  IsName k n = file_of p k ≡ some n

  filename_inv :
      (k n : Text) → IsName k n → (e : Text) × (p.encode k ≡ some e) × (n ≡ e ++ extension)
  unfolding file_of filename_for
  filename_inv k n h = elim (Option-cases (p.encode k)) [
    | inl q ↦ cc (rw (q, file_of, filename_for) at h)
    | inr (e, q) ↦ elim (Bool-cases (p.takes (e ++ extension))) [
      | inl y ↦
          let g : ◌≡◌ {A = Option Text} (some (e ++ extension)) (some n) =
            rw (q, file_of, filename_for, y) at h in
          (e, q, cc)
      | inr y ↦ cc (rw (q, file_of, filename_for, y) at h)
    ]
  ]

  file_keys-cons :
      (k n : Text) (names : List Text)
      → IsName k n
      → file_keys p (n ∷ names) ≡ bind (file_keys p names) (λ ks. some (k ∷ ks))
  unfolding file_keys
  file_keys-cons k n names h =
      let (e, q, r) = filename_inv k n h in
      rw (r, file_keys, strip_json-append e, faithful.decodes k e q) refl

  pub IsName-inj : (k j n : Text) → IsName k n → IsName j n → k ≡ j
  IsName-inj k j n h g =
      let (e, q, r) = filename_inv k n h in
      let (f, s, t) = filename_inv j n g in
      let same : ◌≡◌ {A = Option Text} (some e) (some f) =
        sym (strip_json-append e) ∙ ap strip_json (sym r ∙ t) ∙ strip_json-append f in
      let plain : e ≡ f = cc in
      let d : ◌≡◌ {A = Option Text} (some k) (some j) =
        sym (faithful.decodes k e q) ∙ ap p.decode plain ∙ faithful.decodes j f s in
      cc

  -- The names of files of keys, all of them different, are read as these keys.
  pub file_keys-names :
      (names : List Text)
      → Distinct names
      → ((n : Text) → In n names → (k : Text) × IsName k n)
      → (ks : List Text) × (file_keys p names ≡ some ks)
        × Distinct ks
        × ((k : Text) → In k ks ↔ ((n : Text) × IsName k n × In n names))
  file_keys-names [] d h =
      ([], unfold file_keys in refl, tt, λ k. ((λ m. absurd m), (λ (n, i, m). absurd m)))
  file_keys-names (n ∷ ns) d h =
      let (k, i) = h n (inl refl) in
      let (ks, e, dk, mem) = file_keys-names ns d.1 (λ x m. h x (inr m)) in
      (
        k ∷ ks,
        file_keys-cons k n ns i ∙ ap (λ z. bind z (λ xs. some (k ∷ xs))) e,
        (
          (λ m.
              let (x, j, mx) = (mem k).0 m in
              let q : ◌≡◌ {A = Option Text} (some x) (some n) = sym j ∙ i in
              let same : x ≡ n = cc in d.0 (subst (λ z. In z ns) same mx)),
          dk,
        ),
        λ j. (
          (λ m. elim m [
            | inl q ↦ (n, subst (λ z. IsName z n) (sym q) i, inl refl)
            | inr r ↦ let (x, y, z) = (mem j).0 r in (x, y, inr z)
          ]),
          (λ (x, y, z). elim z [
            | inl q ↦ inl (IsName-inj j k n (subst (λ w. IsName j w) q y) i)
            | inr r ↦ inr ((mem j).1 (x, y, r))
          ]),
        ),
      )

module _ (prefix : Text) (ks js : List Text) (d : Distinct ks) (e : Distinct js)
    (h : (k : Text) → In k ks ↔ In k js) where
  ascending_eq : select_keys prefix none false ks ≡ select_keys prefix none false js
  ascending_eq =
      Ascending-ext (select_keys prefix none false ks) (select_keys prefix none false js)
        (select_keys-Ascending prefix ks d) (select_keys-Ascending prefix js e)
        λ k.
          let (a, b) = In-select_keys prefix k ks in
          let (x, y) = In-select_keys prefix k js in
          ((λ m. y ((a m).0, (h k).0 (a m).1)), (λ m. b ((x m).0, (h k).1 (x m).1)))

  directed_eq : (rev : Bool) → select_keys prefix none rev ks ≡ select_keys prefix none rev js
  directed_eq false = ascending_eq
  directed_eq true =
      select_keys-reverse prefix ks ∙ ap reverse ascending_eq ∙ sym (select_keys-reverse prefix js)

  -- A selection depends on the members of a list of distinct keys only.
  pub select_keys-ext :
      (limit : Option ℕ) (rev : Bool)
      → select_keys prefix limit rev ks ≡ select_keys prefix limit rev js
  select_keys-ext none rev = directed_eq rev
  select_keys-ext (some n) rev =
      select_keys-limit prefix n rev ks
      ∙ ap (take n) (directed_eq rev)
      ∙ sym (select_keys-limit prefix n rev js)
