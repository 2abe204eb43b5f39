-- ===== src/Runtime/Represents.antt =====
-- A directory that holds what an in-memory adapter holds.
use qu_v.Prelude.{
  ◌≡◌, refl, sym, ap, ◌∙◌, subst, Text, Option, none, some, ite, text_dec, if_pos, if_neg,
}
use mathlib.Core.Option
use qu_v.Core.JsMap
use qu_v.Core.JsMap.{Entries, find}
use qu_v.Core.JsMap.Laws.{IsMap, find-put, find-delete, put-IsMap, delete-IsMap}
use qu_v.Runtime.{Dir, Platform, file_of, put, get, delete, parse_file}
use qu_v.Runtime.Names.{IsFaithful, IsName, IsName-inj}

module _ {V : Type 0} (p : Platform V) (faithful : IsFaithful p) where
  -- Every file is that of a key of the map, every key of the map has a name, and the file of a key
  -- holds the JSON of its value, or is not there.
  pub record Represents (d : Dir) (m : Entries V) : Type 0 where
    pub dir : IsMap d
    pub map : IsMap m
    pub named : (k : Text) (v : V) → find m k ≡ some v → (n : Text) × IsName p faithful k n
    pub keyed : (n : Text) (t : Text) → find d n ≡ some t → (k : Text) × IsName p faithful k n
    pub holds : (k n : Text) → IsName p faithful k n → find d n ≡ Option.map p.stringify (find m k)

  -- Names of different keys differ, so a test on the name is one on the key.
  name-ite :
      {A : Type 0} (k j n x : Text) (a b : A)
      → IsName p faithful k n
      → IsName p faithful j x
      → ite (text_dec x n) a b ≡ ite (text_dec j k) a b
  name-ite k j n x a b h g = elim (text_dec j k) [
    | yes e ↦
        let q : ◌≡◌ {A = Option Text} (some x) (some n) = sym g ∙ ap (file_of p) e ∙ h in
        let s : x ≡ n = cc in if_pos (text_dec x n) s a b ∙ sym (if_pos (text_dec j k) e a b)
    | no e ↦
        if_neg (text_dec x n)
          (λ q. e (IsName-inj p faithful j k n (subst (λ z. IsName p faithful j z) q g) h)) a b
        ∙ sym (if_neg (text_dec j k) e a b)
  ]

  ite-map :
      (j k : Text) (a b : Option V)
      → ite (text_dec j k) (Option.map p.stringify a) (Option.map p.stringify b)
        ≡ Option.map p.stringify (ite (text_dec j k) a b)
  ite-map j k a b = elim (text_dec j k) [
    | yes e ↦
        if_pos (text_dec j k) e _ _
        ∙ ap (Option.map p.stringify) (sym (if_pos (text_dec j k) e a b))
    | no e ↦
        if_neg (text_dec j k) e _ _
        ∙ ap (Option.map p.stringify) (sym (if_neg (text_dec j k) e a b))
  ]

  -- A write or a removal at the key's name is one at the key.
  holds-ite :
      (d : Dir) (m : Entries V) (k n j x : Text) (w : Option V)
      → Represents d m
      → IsName p faithful k n
      → IsName p faithful j x
      → ite (text_dec x n) (Option.map p.stringify w) (find d x)
        ≡ Option.map p.stringify (ite (text_dec j k) w (find m j))
  holds-ite d m k n j x w r h g =
      name-ite k j n x (Option.map p.stringify w) (find d x) h g
      ∙ ap (λ z. ite (text_dec j k) (Option.map p.stringify w) z) (r.holds j x g)
      ∙ ite-map j k w (find m j)

  pub put-Represents :
      (d : Dir) (m : Entries V) (k n : Text) (v : V)
      → Represents d m
      → IsName p faithful k n
      → (e : Dir) × (put p d k v ≡ some e) × Represents e (JsMap.put m k v)
  unfolding put
  put-Represents d m k n v r h = (
    JsMap.put d n (p.stringify v),
    rw (h, put) refl,
    record {
      dir = put-IsMap d n (p.stringify v) r.dir;
      map = put-IsMap m k v r.map;
      named = λ j w e. elim (text_dec j k) [
        | yes q ↦ (n, subst (λ z. IsName p faithful z n) (sym q) h)
        | no q ↦ r.named j w (sym (find-put m k j v ∙ if_neg (text_dec j k) q _ _) ∙ e)
      ];
      keyed = λ x t e. elim (text_dec x n) [
        | yes q ↦ (k, subst (λ z. IsName p faithful k z) (sym q) h)
        | no q ↦ r.keyed x t (sym (find-put d n x _ ∙ if_neg (text_dec x n) q _ _) ∙ e)
      ];
      holds = λ j x g.
          find-put d n x (p.stringify v)
          ∙ holds-ite d m k n j x (some v) r h g
          ∙ ap (Option.map p.stringify) (sym (find-put m k j v));
    },
  )

  pub delete-Represents :
      (d : Dir) (m : Entries V) (k n : Text)
      → Represents d m
      → IsName p faithful k n
      → (e : Dir) × (delete p d k ≡ some e) × Represents e (JsMap.delete m k)
  unfolding delete
  delete-Represents d m k n r h = (
    JsMap.delete d n,
    rw (h, delete) refl,
    record {
      dir = delete-IsMap d n r.dir;
      map = delete-IsMap m k r.map;
      named = λ j w e. elim (text_dec j k) [
        | yes q ↦ (n, subst (λ z. IsName p faithful z n) (sym q) h)
        | no q ↦ r.named j w (sym (find-delete m k j r.map ∙ if_neg (text_dec j k) q _ _) ∙ e)
      ];
      keyed = λ x t e. elim (text_dec x n) [
        | yes q ↦ (k, subst (λ z. IsName p faithful k z) (sym q) h)
        | no q ↦ r.keyed x t (sym (find-delete d n x r.dir ∙ if_neg (text_dec x n) q _ _) ∙ e)
      ];
      holds = λ j x g.
          find-delete d n x r.dir
          ∙ holds-ite d m k n j x none r h g
          ∙ ap (Option.map p.stringify) (sym (find-delete m k j r.map));
    },
  )

  parse_stored : (v : Option V) → parse_file p (Option.map p.stringify v) ≡ some v
  unfolding parse_file
  parse_stored none = refl
  parse_stored (some v) = rw (faithful.parses v) refl

  pub get-Represents :
      (d : Dir) (m : Entries V) (k n : Text)
      → Represents d m
      → IsName p faithful k n
      → get p d k ≡ some (find m k)
  unfolding get
  get-Represents d m k n r h =
      rw (h, get) (ap (parse_file p) (r.holds k n h) ∙ parse_stored (find m k))
