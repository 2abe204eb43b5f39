-- ===== src/Store/Sessions.antt =====
-- What is left of a session after it has ended.
use qu_v.Prelude.{
  ℕ, zero, suc, ◌≡◌, refl, Bool, true, false, Text, Option, none, some, [], ◌∷◌, ◌++◌, starts_with,
  arith, leb, inl, inr, Bool-cases,
}
use qu_v.Prelude.Sorting.{sort}
use qu_v.Core.Listing.{with_prefix, directed, limited, select_keys, with_values}
use qu_v.Core.JsMap.{Entries}
use qu_v.Core.Storage.{keys}
use qu_v.Core.Volatile
use qu_v.Core.Volatile.{Slot, live, without_prefix}
use qu_v.Store.{ApStore, index_key_prefix}
use qu_v.Store.Methods.{session_prefix, session_documents, get_session_children, end_session}

starts_with-longer : (p q k : Text) → starts_with p k ≡ false → starts_with (p ++ q) k ≡ false
unfolding starts_with
starts_with-longer [] q k e = cc (e)
starts_with-longer (x ∷ p) q [] e = refl
starts_with-longer (x ∷ p) q (y ∷ k) e = ground (arith, starts_with-longer p q k)

module _ {V : Type 0} where
  with_prefix-cleared :
      (p q : Text) (now : ℕ) (m : Entries (Slot V))
      → with_prefix (p ++ q) (keys (live now (without_prefix p m))) ≡ []
  unfolding with_prefix live without_prefix
  with_prefix-cleared p q now [] = refl
  with_prefix-cleared p q now ((k, e) ∷ m) = elim (Bool-cases (starts_with p k)) [
    | inl t ↦ rw (t, without_prefix) (with_prefix-cleared p q now m)
    | inr f ↦ elim (Bool-cases (leb e.expires_at now)) [
      | inl d ↦ rw (f, without_prefix, d, live) (with_prefix-cleared p q now m)
      | inr d ↦
          rw (f, without_prefix, d, live, starts_with-longer p q k f, with_prefix)
            (with_prefix-cleared p q now m)
    ]
  ]

limited-nothing : (limit : Option ℕ) (r : Bool) → limited limit (directed r (sort [])) ≡ []
unfolding directed limited sort
limited-nothing none true = refl
limited-nothing none false = refl
limited-nothing (some zero) true = refl
limited-nothing (some zero) false = refl
limited-nothing (some (suc n)) true = refl
limited-nothing (some (suc n)) false = refl

-- Once a session has ended, whatever was put into it and at whichever time it is asked,
-- getSessionChildren() lists nothing of any of its collections.
pub end_session-children :
    {S : Type 0} (s : ApStore S) (sid c : Text) (limit : Option ℕ) (now : ℕ)
    → get_session_children (end_session s sid) sid c limit now ≡ []
unfolding get_session_children end_session Volatile.list Volatile.clear Volatile.prune
    session_documents select_keys with_values
end_session-children s sid c limit now =
    rw
      (
        with_prefix-cleared (session_prefix sid) (index_key_prefix c) now s.volatile.entries,
        limited-nothing limit true,
      )
      refl
