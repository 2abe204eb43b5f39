-- ===== src/As2/Audience.antt =====
-- packages/as2/src/audience.js: who a document is addressed to.
pub mod Recipients
use qu_v.Prelude.{
  ◌≡◌, refl, Bool, true, false, Text, codes, Option, none, some, List, [], ◌∷◌, ◌++◌, if◌then◌else◌,
  length, ◌==◌, ◌||◌, text_eq,
}
use qu_v.As2.Value.{
  Value, undefined, null, boolean, number, text, array, object, Items, nil, cons, Fields, end,
  field, items, get_field, as_text,
}
use qu_v.As2.Vocabulary.{public_audience, includes}

-- toArray(value)
unfoldable pub to_array : Value → List Value
unfolding items
to_array undefined = []
to_array null = []
to_array (array xs) = items xs
to_array v = v ∷ []

-- idOf(entry), the same in audience.js, pipeline.js, ap-router.js and auto-accept-follows.js
unfoldable pub id_of : Value → Option Text
unfolding get_field as_text
id_of (text t) = some t
id_of (object fs) = as_text (get_field (object fs) (codes "id"))
id_of _ = none

-- .map(idOf).filter((id) => typeof id === 'string' && id.length > 0)
unfoldable pub ids : List Value → List Text
unfolding id_of
ids [] = []
ids (v ∷ vs) =
    let rest = ids vs in
    elim (id_of v) [ none ↦ rest | some t ↦ if length t == 0 then rest else t ∷ rest ]

-- set.add(x), on a Set in insertion order
unfoldable pub add : List Text → Text → List Text
unfolding includes
add seen x = if includes seen x then seen else seen ++ x ∷ []

unfoldable pub add_all : List Text → List Text → List Text
unfolding add
add_all seen [] = seen
add_all seen (x ∷ xs) = add_all (add seen x) xs

-- new Set(xs)
unfoldable pub dedup : List Text → List Text
unfolding add_all
dedup xs = add_all [] xs

-- entity[field], as the ids that normalizeAudience keeps of it
unfoldable pub addressed : Value → Text → List Text
unfolding dedup ids to_array get_field
addressed entity name = dedup (ids (to_array (get_field entity name)))

pub record Audience : Type 0 where
  pub to : List Text
  pub cc_ids : List Text
  pub bto : List Text
  pub bcc : List Text
  pub audience : List Text
  pub is_public : Bool
  pub recipients : List Text

-- What the loop over the fields has gathered: isPublic and the set of recipients.
pub record Gathered : Type 0 where
  pub is_public : Bool
  pub recipients : List Text

-- One id of one field: the public marker sets isPublic, any other joins the recipients.
unfoldable pub visit : Gathered → Text → Gathered
unfolding add
visit g x =
    if text_eq x public_audience
    then record g { is_public = true }
    else record g { recipients = add g.recipients x }

unfoldable pub gather : Gathered → List Text → Gathered
unfolding visit
gather g [] = g
gather g (x ∷ xs) = gather (visit g x) xs

abbrev pub nobody : Gathered
nobody = record { is_public = false; recipients = [] }

unfoldable pub normalize_audience : Value → Audience
unfolding addressed gather
normalize_audience entity =
    let to = addressed entity (codes "to") in
    let cc_ids = addressed entity (codes "cc") in
    let bto = addressed entity (codes "bto") in
    let bcc = addressed entity (codes "bcc") in
    let audience = addressed entity (codes "audience") in
    let all = gather (gather (gather (gather (gather nobody to) cc_ids) bto) bcc) audience in
    record {
      to = to;
      cc_ids = cc_ids;
      bto = bto;
      bcc = bcc;
      audience = audience;
      is_public = all.is_public;
      recipients = all.recipients;
    }

unfoldable pub is_public_audience : Value → Bool
unfolding normalize_audience
is_public_audience entity = (normalize_audience entity).is_public

unfoldable pub without_field : Text → Fields → Fields
without_field k end = end
without_field k (field j v fs) =
    let rest = without_field k fs in if text_eq k j then rest else field j v rest

-- const { bto, bcc, ...rest } = entity
unfoldable pub strip_blind_addressing : Value → Value
unfolding without_field
strip_blind_addressing (object fs) =
    object (without_field (codes "bcc") (without_field (codes "bto") fs))
strip_blind_addressing v = object end
