-- ===== src/Runtime/Refines.antt =====
-- FsAdapter answers as MemoryStoreAdapter does.
use qu_v.Prelude.{
  ℕ, zero, suc, take, ◌≡◌, ◌↔◌, refl, sym, ap, ap₂, ◌∙◌, subst, Bool, true, false, Text, Option,
  none, some, List, [], ◌∷◌, map, In, ◌⊎◌, ◌++◌, codes, if◌then◌else◌, Bool-cases, inl, inr,
  Option-cases, In-reverse,
}
use mathlib.Core.Option
use qu_v.Core.JsMap
use qu_v.Core.JsMap.{Entries, find}
use qu_v.Core.JsMap.Laws.{In-keys_of_find, find_of_In-keys}
use qu_v.Core.Storage.{keys}
use qu_v.Core.Listing.{select_keys, with_values}
use qu_v.Core.Listing.Laws.{In-select_keys, select_keys-reverse, select_keys-limit}
use qu_v.Core.Memory
use qu_v.Runtime.{Dir, Platform, extension, filename_for, file_of, put, get, delete, list, entries}
use qu_v.Runtime.Names.{IsFaithful, IsName, file_keys-names, select_keys-ext}
use qu_v.Runtime.Represents.{Represents, put-Represents, delete-Represents, get-Represents}

In-take : {A : Type 0} (n : ℕ) (a : A) (xs : List A) → In a (take n xs) → In a xs
In-take zero a xs h = absurd h
In-take (suc n) a [] h = h
In-take (suc n) a (x ∷ xs) (inl e) = inl e
In-take (suc n) a (x ∷ xs) (inr h) = inr (In-take n a xs h)

In-directed :
    (prefix k : Text) (rev : Bool) (ks : List Text)
    → In k (select_keys prefix none rev ks)
    → In k ks
In-directed prefix k false ks h = ((In-select_keys prefix k ks).0 h).1
In-directed prefix k true ks h =
    ((In-select_keys prefix k ks).0 (
      In-reverse k (select_keys prefix none false ks)
        (subst (In k) (select_keys-reverse prefix ks) h))).1

In-selected :
    (prefix k : Text) (limit : Option ℕ) (rev : Bool) (ks : List Text)
    → In k (select_keys prefix limit rev ks)
    → In k ks
In-selected prefix k none rev ks h = In-directed prefix k rev ks h
In-selected prefix k (some n) rev ks h = In-directed prefix k rev ks (
    In-take n k (select_keys prefix none rev ks)
      (subst (In k) (select_keys-limit prefix n rev ks) h))

-- An entry of a listing, as FsAdapter gives it.
abbrev pub present : {V : Type 0} → Text × V → Text × Option V
present (k, v) = (k, some v)

module _ {V : Type 0} (p : Platform V) (faithful : IsFaithful p) (d : Dir) (m : Entries V)
    (r : Represents p faithful d m) where
  In-file_keys :
      (k : Text) → ((n : Text) × IsName p faithful k n × In n (p.readdir d)) ↔ In k (keys m)
  In-file_keys k = (
    (λ (n, i, h).
        let (t, e) = find_of_In-keys d n ((faithful.In-readdir d n r.dir).0 h) in
        elim (Option-cases (find m k)) [
          | inl q ↦ cc (e, r.holds k n i, ap (Option.map p.stringify) q)
          | inr (v, q) ↦ In-keys_of_find m k v q
        ]),
    (λ h.
        let (v, e) = find_of_In-keys m k h in
        let (n, i) = r.named k v e in
        (
          n,
          i,
          (faithful.In-readdir d n r.dir).1
              (In-keys_of_find d n (p.stringify v) (r.holds k n i ∙ ap (Option.map p.stringify) e)),
        )),
  )

  entries-present :
      (ks : List Text)
      → ((k : Text) → In k ks → In k (keys m))
      → entries p d ks ≡ some (map present (with_values (find m) ks))
  unfolding entries with_values
  entries-present [] h = refl
  entries-present (k ∷ ks) h =
      let (v, e) = find_of_In-keys m k (h k (inl refl)) in
      let (n, i) = r.named k v e in
      rw
        (
          get-Represents p faithful d m k n r i,
          entries,
          e,
          entries-present ks (λ j z. h j (inr z)),
          with_values,
        )
        refl

  pub list-Represents :
      (prefix : Text) (limit : Option ℕ) (rev : Bool)
      → list p d prefix limit rev ≡ some (map present (Memory.list m prefix limit rev))
  unfolding list Memory.list
  list-Represents prefix limit rev =
      let (ks, e, dk, mem) =
        file_keys-names p faithful (p.readdir d) (faithful.readdir-Distinct d r.dir) (λ n h.
          let (t, q) = find_of_In-keys d n ((faithful.In-readdir d n r.dir).0 h) in
          r.keyed n t q) in
      let same =
        select_keys-ext prefix ks (keys m) dk r.map
          (λ k. ((λ h. (In-file_keys k).0 ((mem k).0 h)), (λ h. (mem k).1 ((In-file_keys k).1 h))))
          limit rev in
      rw (e, list)
        (ap (entries p d) same
          ∙ entries-present (select_keys prefix limit rev (keys m))
              (λ k h. In-selected prefix k limit rev (keys m) h))

-- A call of an adapter's methods, and what it answers.
pub data Call (V : Type 0) : Type 0 where
  puts : (key : Text) (value : V) → Call V
  gets : (key : Text) → Call V
  deletes : (key : Text) → Call V
  lists : (prefix : Text) (limit : Option ℕ) (rev : Bool) → Call V

pub data Reply (V : Type 0) : Type 0 where
  done threw : Reply V
  found : Option V → Reply V
  listed : List (Text × Option V) → Reply V

abbrev changed : {V : Type 0} → Dir → Option Dir → Dir × Reply V
changed d none = (d, threw)
changed d (some e) = (e, done)

abbrev answer : {A V : Type 0} → Option A → (A → Reply V) → Reply V
answer none f = threw
answer (some a) f = f a

module _ {V : Type 0} (p : Platform V) where
  -- One call of FsAdapter, and one of MemoryStoreAdapter.
  unfoldable pub call_fs : Dir → Call V → Dir × Reply V
  call_fs d (puts k v) = changed d (put p d k v)
  call_fs d (gets k) = (d, answer (get p d k) found)
  call_fs d (deletes k) = changed d (delete p d k)
  call_fs d (lists prefix limit rev) = (d, answer (list p d prefix limit rev) listed)

  unfoldable pub replies_fs : Dir → List (Call V) → List (Reply V)
  unfolding call_fs
  replies_fs d [] = []
  replies_fs d (c ∷ cs) = (call_fs d c).1 ∷ replies_fs (call_fs d c).0 cs

module _ {V : Type 0} (p : Platform V) where
  -- The key can be encoded, and the file system takes the name of its file.
  unfoldable pub is_taken : Text → Bool
  is_taken k = elim (p.encode k) [ none ↦ false | some n ↦ p.takes (n ++ codes ".json") ]

  is_taken-file_of :
      (k : Text)
      → ((is_taken k ≡ true) × (n : Text) × (file_of p k ≡ some n))
        ⊎ ((is_taken k ≡ false) × (file_of p k ≡ none))
  unfolding is_taken file_of filename_for
  is_taken-file_of k = elim (Option-cases (p.encode k)) [
    | inl q ↦ inr (rw (q, is_taken) refl, rw (q, file_of, filename_for) refl)
    | inr (e, q) ↦ elim (Bool-cases (p.takes (e ++ extension))) [
      | inl y ↦ inl (rw (q, is_taken) y, e ++ extension, rw (q, file_of, filename_for, y) refl)
      | inr y ↦ inr (rw (q, is_taken) y, rw (q, file_of, filename_for, y) refl)
    ]
  ]

  -- One call of MemoryStoreAdapter, where a call with a key that is not taken throws instead.
  unfoldable pub call_memory : Entries V → Call V → Entries V × Reply V
  unfolding is_taken
  call_memory m (puts k v) = if is_taken k then (Memory.put m k v, done) else (m, threw)
  call_memory m (gets k) = if is_taken k then (m, found (Memory.get m k)) else (m, threw)
  call_memory m (deletes k) = if is_taken k then (Memory.delete m k, done) else (m, threw)
  call_memory m (lists prefix limit rev) =
      (m, listed (map present (Memory.list m prefix limit rev)))

  unfoldable pub replies_memory : Entries V → List (Call V) → List (Reply V)
  unfolding call_memory
  replies_memory m [] = []
  replies_memory m (c ∷ cs) = (call_memory m c).1 ∷ replies_memory (call_memory m c).0 cs

module _ {V : Type 0} (p : Platform V) (faithful : IsFaithful p) where
  call-Represents :
      (d : Dir) (m : Entries V) (c : Call V)
      → Represents p faithful d m
      → ((call_fs p d c).1 ≡ (call_memory p m c).1)
        × Represents p faithful (call_fs p d c).0 (call_memory p m c).0
  unfolding call_fs call_memory Memory.put Memory.get Memory.delete put get delete
  call-Represents d m (puts k v) r = elim (is_taken-file_of p k) [
    | inr (z, q) ↦ rw (call_fs, q, put, call_memory, z) (refl, r)
    | inl (z, n, h) ↦
        let (e, q, s) = put-Represents p faithful d m k n v r h in
        (
          rw (q, z, call_memory) refl,
          rw (z, call_memory)
              (subst (λ z. Represents p faithful (changed {V = V} d z).0 (JsMap.put m k v)) (sym q)
                s),
        )
  ]
  call-Represents d m (gets k) r = elim (is_taken-file_of p k) [
    | inr (z, q) ↦ rw (q, call_fs, get, z, call_memory) (refl, r)
    | inl (z, n, h) ↦ rw (get-Represents p faithful d m k n r h, call_fs, z, call_memory) (refl, r)
  ]
  call-Represents d m (deletes k) r = elim (is_taken-file_of p k) [
    | inr (z, q) ↦ rw (q, call_fs, delete, z, call_memory) (refl, r)
    | inl (z, n, h) ↦
        let (e, q, s) = delete-Represents p faithful d m k n r h in
        (
          rw (q, z, call_memory) refl,
          rw (z, call_memory)
              (subst (λ z. Represents p faithful (changed {V = V} d z).0 (JsMap.delete m k)) (sym q)
                s),
        )
  ]
  call-Represents d m (lists prefix limit rev) r =
      (rw (list-Represents p faithful d m r prefix limit rev) refl, r)

  replies-Represents :
      (calls : List (Call V)) (d : Dir) (m : Entries V)
      → Represents p faithful d m
      → replies_fs p d calls ≡ replies_memory p m calls
  unfolding replies_fs replies_memory
  replies-Represents [] d m r = refl
  replies-Represents (c ∷ cs) d m r =
      let (e, s) = call-Represents d m c r in
      ap₂ ◌∷◌ e (replies-Represents cs (call_fs p d c).0 (call_memory p m c).0 s)

  -- On an empty directory FsAdapter answers every sequence of calls as MemoryStoreAdapter does on an
  -- empty map, but for the keys that cannot be encoded, or of whose files the file system does not
  -- take the names: put(), get() and delete() of such a key throw and change nothing. Every value
  -- that is read or listed, and the order of every listing, is the same.
  pub fs_adapter-memory_adapter :
      (calls : List (Call V)) → replies_fs p [] calls ≡ replies_memory p [] calls
  fs_adapter-memory_adapter calls = replies-Represents calls [] [] (record {
    dir = tt;
    map = tt;
    named = λ k v e. unfold find in cc e;
    keyed = λ n t e. unfold find in cc e;
    holds = λ k n e. unfold find in refl;
  })
