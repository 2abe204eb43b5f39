-- ===== src/As2/Canonical.antt =====
-- packages/as2/src/canonicalize.js: the canonical JSON text of a document. A number is a natural
-- number below 10^21, which String() prints in decimal; `none` is the TypeError for undefined. The
-- bytes that canonicalizeToBytes() makes of the text are UTF-8's.
pub mod Order
pub mod Total
use mathlib.Core.Option
use qu_v.Prelude.{
  ℕ, ◌/◌, ◌%◌, ◌+◌, Bool, true, false, Text, codes, Option, none, some, List, [], ◌∷◌, ◌++◌, ◌&&◌,
  ◌||◌, leb, ltb, ◌==◌, if◌then◌else◌,
}
use qu_v.Prelude.Sorting.{sort}
use qu_v.Core.Cursor.Decimal.{digits}
use qu_v.Core.JsMap.{Entries, find}
use qu_v.As2.Value.{
  Value, undefined, null, boolean, number, text, array, object, Items, nil, cons, Fields, end,
  field, lookup_field,
}

infixl 5 ◌>>=◌
abbrev pub ◌>>=◌ : {A B : Type 0} → Option A → (A → Option B) → Option B
none >>= f = none
some a >>= f = f a

abbrev high_surrogate : ℕ → Bool
high_surrogate c = leb 55296 c && ltb c 56320

abbrev low_surrogate : ℕ → Bool
low_surrogate c = leb 56320 c && ltb c 57344

hex_digit : ℕ → ℕ
hex_digit d = if ltb d 10 then d + b'0' else d + 87

-- The escape \u with four digits.
hex_escape : ℕ → Text
unfolding hex_digit
hex_escape c =
    codes "\\u"
    ++ hex_digit (c / 4096 % 16)
      ∷ hex_digit (c / 256 % 16)
      ∷ hex_digit (c / 16 % 16)
      ∷ hex_digit (c % 16)
      ∷ []

abbrev starts_low : Text → Bool
starts_low [] = false
starts_low (c ∷ cs) = low_surrogate c

-- A code unit as JSON.stringify() writes it, behind a high surrogate or not, before the rest.
escape_unit : Bool → ℕ → Text → Text
unfolding hex_escape
escape_unit behind_high c rest =
    if c == b'"'
    then codes "\\\""
    else if c == b'\\'
    then codes "\\\\"
    else if c == 8
    then codes "\\b"
    else if c == 9
    then codes "\\t"
    else if c == 10
    then codes "\\n"
    else if c == 12
    then codes "\\f"
    else if c == 13
    then codes "\\r"
    else if ltb c 32
    then hex_escape c
    else if high_surrogate c
    then (if starts_low rest then c ∷ [] else hex_escape c)
    else if low_surrogate c
    then (if behind_high then c ∷ [] else hex_escape c)
    else c ∷ []

escape_from : Bool → Text → Text
unfolding escape_unit
escape_from behind_high [] = []
escape_from behind_high (c ∷ cs) = escape_unit behind_high c cs ++ escape_from (high_surrogate c) cs

-- JSON.stringify(text)
unfoldable pub json_string : Text → Text
unfolding escape_from
json_string t = b'"' ∷ escape_from false t ++ codes "\""

-- texts.join(',')
unfoldable pub join_commas : List Text → Text
join_commas [] = []
join_commas (t ∷ []) = t
join_commas (t ∷ u ∷ ts) = t ++ codes "," ++ join_commas (u ∷ ts)

-- Object.keys(value)
unfoldable pub field_names : Fields → List Text
field_names end = []
field_names (field k v fs) = k ∷ field_names fs

-- value !== undefined
unfoldable pub is_defined : Value → Bool
is_defined undefined = false
is_defined _ = true

-- keys.filter((key) => value[key] !== undefined)
unfoldable pub defined_keys : Fields → List Text → List Text
unfolding is_defined lookup_field
defined_keys fs [] = []
defined_keys fs (k ∷ ks) =
    let rest = defined_keys fs ks in if is_defined (lookup_field k fs) then k ∷ rest else rest

-- canonicalizeValue(value[key]), from what each field gave.
unfoldable pub value_text : Entries (Option Text) → Text → Option Text
unfolding find
value_text texts k = elim (find texts k) [ none ↦ none | some t ↦ t ]

-- keys.map((key) => `${JSON.stringify(key)}:${canonicalizeValue(value[key])}`)
unfoldable pub member_texts : Entries (Option Text) → List Text → Option (List Text)
unfolding value_text json_string
member_texts texts [] = some []
member_texts texts (k ∷ ks) = do
  t ← value_text texts k
  ts ← member_texts texts ks
  some ((json_string k ++ codes ":" ++ t) ∷ ts)

unfoldable mutual
  unfolding member_texts defined_keys field_names join_commas json_string is_defined

  -- canonicalizeValue(value)
  pub canonicalize : Value → Option Text
  canonicalize undefined = none
  canonicalize null = some (codes "null")
  canonicalize (boolean b) = some (if b then codes "true" else codes "false")
  canonicalize (number n) = some (digits n)
  canonicalize (text t) = some (json_string t)
  canonicalize (array xs) =
      Option.map (λ ts. codes "[" ++ join_commas ts ++ codes "]") (canonical_items xs)
  canonicalize (object fs) =
      Option.map (λ ts. codes "{" ++ join_commas ts ++ codes "}")
        (member_texts (canonical_fields fs) (sort (defined_keys fs (field_names fs))))

  -- The items' texts; undefined is written as null.
  pub canonical_items : Items → Option (List Text)
  canonical_items nil = some []
  canonical_items (cons v vs) = do
    t ← if is_defined v then canonicalize v else some (codes "null")
    ts ← canonical_items vs
    some (t ∷ ts)

  -- What each field's value gives.
  pub canonical_fields : Fields → Entries (Option Text)
  canonical_fields end = []
  canonical_fields (field k v fs) = (k, canonicalize v) ∷ canonical_fields fs
