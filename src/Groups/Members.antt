-- ===== src/Groups/Members.antt =====
-- Who is a member after addMember() and removeMember().
use mathlib.Core.List.{append_cancel_left}
use mathlib.Core.Option
use qu_v.Prelude.{
  ℕ, ◌<◌, ◌≡◌, refl, sym, ap, ◌∙◌, inl, inr, Bool, true, false, Text, codes, Option, none, some, [],
  ◌∷◌, ite, if_pos, if_neg, text_dec, text_eq, Bool-cases, Option-cases, arith,
}
use qu_v.Core.Storage
use qu_v.Core.Storage.{Operations}
use qu_v.Core.Cursor.RoundTrip.{ts_limit}
use qu_v.As2.Value.{get_field, lookup_field, as_text}
use qu_v.Store.{Stored, ApStore, Record, doc_id}
use qu_v.Store.Keys.{IsClean}
use qu_v.Store.View.{View, Represents, update}
use qu_v.Store.Methods.{emit, returned}
use qu_v.Store.Calls.{tier_of-persistent, put-persistent, delete-view, delete-unknown, get-view}
use qu_v.Groups.{
  member_delim, membership_record_id, members_collection, member_record, add_member, remove_member,
  is_present, is_member,
}

membership_record_id_inj :
    (g i j : Text) → membership_record_id g i ≡ membership_record_id g j → i ≡ j
unfolding membership_record_id
membership_record_id_inj g i j e =
    let h =
      append_cancel_left g (member_delim ∷ i) (member_delim ∷ j)
        (append_cancel_left (codes "urn:qu:group-member:") _ _ e) in
    cc (h)

doc_id-member_record :
    (g i : Text) (t : ℕ) → doc_id (member_record g i t) ≡ some (membership_record_id g i)
unfolding doc_id member_record get_field lookup_field as_text text_dec Bool-cases text_eq
    membership_record_id
doc_id-member_record g i t = ground arith

module _ {S : Type 0} (o : Operations S Stored) (Ok : S → Type 0)
    (laws : Storage.Laws S Stored o Ok) (g : Text) where
  -- Membership in the view.
  view_member : View → Text → Bool
  view_member m i = is_present o g (Option.map (λ r. r.doc) (m (membership_record_id g i)))

  is_member-view :
      (s : ApStore S) (m : View) (i : Text)
      → Represents o Ok s.adapter m
      → is_member o g s i ≡ view_member m i
  unfolding is_member view_member
  is_member-view s m i rep =
      ap (is_present o g) (get-view o Ok laws s m (membership_record_id g i) rep)

  view_member-update :
      (m : View) (i j : Text) (r : Option Record)
      → view_member (update m (membership_record_id g i) r) j
        ≡ ite (text_dec j i) (is_present o g (Option.map (λ x. x.doc) r)) (view_member m j)
  unfolding view_member
  view_member-update m i j r = elim (text_dec j i) [
    | yes e ↦
        rw
          (
            if_pos (text_dec (membership_record_id g j) (membership_record_id g i))
                (ap (membership_record_id g) e),
            if_pos (text_dec j i) e,
          )
          refl
    | no n ↦
        rw
          (
            if_neg (text_dec (membership_record_id g j) (membership_record_id g i))
                (λ q. n (membership_record_id_inj g j i q)),
            if_neg (text_dec j i) n,
          )
          refl
  ]

  -- The view of a store after its record of member `i` is `r`.
  is_member-update :
      (s t : ApStore S) (m : View) (i j : Text) (r : Option Record)
      → Represents o Ok s.adapter m
      → Represents o Ok t.adapter (update m (membership_record_id g i) r)
      → is_member o g t j
        ≡ ite (text_dec j i) (is_present o g (Option.map (λ x. x.doc) r)) (is_member o g s j)
  is_member-update s t m i j r rep rap =
      is_member-view t (update m (membership_record_id g i) r) j rap
      ∙ view_member-update m i j r
      ∙ ap (ite (text_dec j i) (is_present o g (Option.map (λ x. x.doc) r)))
          (sym (is_member-view s m j rep))

  -- On a store that represents a view, with a clean members collection and a time that fits in a
  -- cursor: addMember() returns, leaves a store that represents a view, and isMember() then holds of
  -- the new member, and of any other id as before.
  pub add_member-is_member :
      (s : ApStore S) (m : View) (i : Text) (joined_at now : ℕ)
      → Represents o Ok s.adapter m
      → IsClean (members_collection g)
      → joined_at < ts_limit
      → (t : ApStore S) × (n : View) × (add_member o g s i joined_at now
          ≡ (t, returned (member_record g i joined_at)))
        × Represents o Ok t.adapter n
        × ((j : Text) → is_member o g t j ≡ ite (text_dec j i) true (is_member o g s j))
  unfolding add_member emit is_present
  add_member-is_member s m i joined_at now rep c l =
      let (b, q, u) =
        put-persistent o Ok laws s m (member_record g i joined_at) (membership_record_id g i)
          (record {
            collections = members_collection g ∷ [];
            durability = codes "persistent";
            session_id = none;
            ts = joined_at;
          })
          now rep (doc_id-member_record g i joined_at) tier_of-persistent
          (record { clean = (c, tt); fits = l }) in
      (_, _, q, u, (λ j. is_member-update s _ m i j _ rep u))

  -- On a store that represents a view: removeMember() returns, leaves a store that represents a
  -- view, and isMember() then fails of that id, and is as before of any other.
  pub remove_member-is_member :
      (s : ApStore S) (m : View) (i : Text)
      → Represents o Ok s.adapter m
      → (t : ApStore S) × (n : View) × (remove_member o g s i ≡ (t, returned tt))
        × Represents o Ok t.adapter n
        × ((j : Text) → is_member o g t j ≡ ite (text_dec j i) false (is_member o g s j))
  unfolding remove_member emit is_present view_member
  remove_member-is_member s m i rep = elim (Option-cases (m (membership_record_id g i))) [
    | inr (r, e) ↦
        let (b, q, u) = delete-view o Ok laws s m (membership_record_id g i) r rep e in
        (_, _, q, u, (λ j. is_member-update s _ m i j none rep u))
    | inl e ↦ (
      s,
      m,
      delete-unknown o Ok laws s m (membership_record_id g i) rep e,
      rep,
      (λ j. elim (text_dec j i) [
        | no n ↦ rw (if_neg (text_dec j i) n) refl
        | yes p ↦ rw (if_pos (text_dec j i) p) (
            is_member-view s m j rep
            ∙ ap (λ x. is_present o g (Option.map (λ r. r.doc) (m (membership_record_id g x)))) p
            ∙ ap (λ x. is_present o g (Option.map (λ r. r.doc) x)) e)
      ]),
    )
  ]
