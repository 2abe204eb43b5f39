-- ===== src/Core/JsMap/Laws.antt =====
-- What a Map with distinct keys answers after a write and after a removal.
use qu_v.Prelude.{
  ◌≡◌, refl, sym, ◌∙◌, inl, inr, ◌⊎◌, Text, none, some, [], ◌∷◌, In, ite, if_pos, if_neg, text_dec,
  arith,
}
use qu_v.Prelude.Sorting.{Distinct}
use qu_v.Core.Storage.{keys}
use qu_v.Core.JsMap.{Entries, find, put, delete}

-- No two entries have the same key.
abbrev pub IsMap : {V : Type 0} → Entries V → Type 0
IsMap m = Distinct (keys m)

module _ {V : Type 0} where
  pub find-put :
      (m : Entries V) (k j : Text) (v : V)
      → find (put m k v) j ≡ ite (text_dec j k) (some v) (find m j)
  unfolding find put
  find-put [] k j v = refl
  find-put ((i, w) ∷ m) k j v = ground (arith, find-put m k j v)

  pub find_absent : (m : Entries V) (k : Text) → ¬ In k (keys m) → find m k ≡ none
  unfolding find
  find_absent [] k h = refl
  find_absent ((j, v) ∷ m) k h =
      rw (if_neg (text_dec k j) (λ e. h (inl e))) (find_absent m k (λ e. h (inr e)))

  pub find-delete :
      (m : Entries V) (k j : Text)
      → IsMap m
      → find (delete m k) j ≡ ite (text_dec j k) none (find m j)
  unfolding find delete
  find-delete [] k j d = ground arith
  find-delete ((i, w) ∷ m) k j d = ground (arith, find-delete m k j d.1, find_absent m i d.0)

  In-keys-put :
      (m : Entries V) (k j : Text) (v : V) → In j (keys (put m k v)) → (j ≡ k) ⊎ In j (keys m)
  unfolding put
  In-keys-put [] k j v h = h
  In-keys-put ((i, w) ∷ m) k j v h = ground (arith, In-keys-put m k j v)

  pub put-IsMap : (m : Entries V) (k : Text) (v : V) → IsMap m → IsMap (put m k v)
  unfolding put
  put-IsMap [] k v d = (λ h. h, tt)
  put-IsMap ((j, w) ∷ m) k v d = elim (text_dec k j) [
    | yes e ↦ rw (if_pos (text_dec k j) e) d
    | no n ↦ rw (if_neg (text_dec k j) n) (
      (λ h. elim (In-keys-put m k j v h) [ inl e ↦ n (sym e) | inr i ↦ d.0 i ]),
      put-IsMap m k v d.1,
    )
  ]

  In-keys-delete : (m : Entries V) (k j : Text) → In j (keys (delete m k)) → In j (keys m)
  unfolding delete
  In-keys-delete [] k j h = h
  In-keys-delete ((i, w) ∷ m) k j h = ground (arith, In-keys-delete m k j)

  pub delete-IsMap : (m : Entries V) (k : Text) → IsMap m → IsMap (delete m k)
  unfolding delete
  delete-IsMap [] k d = tt
  delete-IsMap ((j, w) ∷ m) k d = elim (text_dec k j) [
    | yes e ↦ rw (if_pos (text_dec k j) e) d.1
    | no n ↦
        rw (if_neg (text_dec k j) n) ((λ h. d.0 (In-keys-delete m k j h)), delete-IsMap m k d.1)
  ]

  pub In-keys_of_find : (m : Entries V) (k : Text) (v : V) → find m k ≡ some v → In k (keys m)
  unfolding find
  In-keys_of_find [] k v h = cc
  In-keys_of_find ((j, w) ∷ m) k v h = ground (arith, In-keys_of_find m k v)

  pub find_of_In-keys : (m : Entries V) (k : Text) → In k (keys m) → (v : V) × (find m k ≡ some v)
  unfolding find
  find_of_In-keys [] k h = absurd h
  find_of_In-keys ((j, w) ∷ m) k h = elim (text_dec k j) [
    | yes e ↦ (w, if_pos (text_dec k j) e _ _)
    | no n ↦
        let r : In k (keys m) = elim h [ inl e ↦ absurd (n e) | inr i ↦ i ] in
        let (v, e) = find_of_In-keys m k r in (v, if_neg (text_dec k j) n _ _ ∙ e)
  ]
