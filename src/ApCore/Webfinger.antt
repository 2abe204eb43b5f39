-- ===== src/ApCore/Webfinger.antt =====
-- packages/ap-core/src/webfinger.js: `acct:` handles and the JRD that resolves one to an actor.
-- encodeURIComponent() is a parameter. none is an error, but in parse_acct, where it is null.
pub mod Handles
use mathlib.Core.Option
use qu_v.Prelude.{
  ℕ, Bool, true, false, not, ◌&&◌, ◌||◌, Text, codes, Option, none, some, List, [], ◌∷◌, ◌++◌, map,
  length, drop, ◌==◌, if◌then◌else◌, starts_with, text_eq,
}
use qu_v.As2.Value.{
  Value, undefined, null, boolean, number, text, array, object, Items, nil, cons, Fields, end,
  field, items, to_items, get_field, as_text,
}

pub record Acct : Type 0 where
  pub username : Text
  pub host : Text

-- The parts of a text before and behind its first `@`.
unfoldable pub split_at_sign : Text → Option (Text × Text)
split_at_sign [] = none
split_at_sign (c ∷ cs) =
    let rest = split_at_sign cs in
    if c == b'@' then some ([], cs) else Option.map (λ p. (c ∷ p.0, p.1)) rest

-- The line terminators, which `.` does not match.
unfoldable pub is_line_end : ℕ → Bool
is_line_end c = c == 10 || c == 13 || c == 8232 || c == 8233

unfoldable pub is_one_line : Text → Bool
unfolding is_line_end
is_one_line [] = true
is_one_line (c ∷ cs) = not (is_line_end c) && is_one_line cs

-- The parts match [^@]+ and .+
unfoldable pub is_handle : Text → Text → Bool
unfolding is_one_line
is_handle u h = not (length u == 0) && (not (length h == 0) && is_one_line h)

-- ([^@]+)@(.+) on the whole of a text
unfoldable pub parse_handle : Text → Option Acct
unfolding split_at_sign is_handle
parse_handle t = elim (split_at_sign t) [
  | none ↦ none
  | some p ↦ if is_handle p.0 p.1 then some (record { username = p.0; host = p.1 }) else none
]

abbrev pub acct_prefix : Text
acct_prefix = codes "acct:"

-- parseAcct(resource)
unfoldable pub parse_acct : Text → Option Acct
unfolding parse_handle
parse_acct t =
    if starts_with acct_prefix t then parse_handle (drop (length acct_prefix) t) else none

-- `acct:${username}@${host}`
unfoldable pub acct_text : Text → Text → Text
acct_text username host = acct_prefix ++ (username ++ b'@' ∷ host)

-- buildAcct(username, host)
unfoldable pub build_acct : Text → Text → Option Text
unfolding acct_text
build_acct username host =
    if length username == 0 || length host == 0 then none else some (acct_text username host)

abbrev pub activity_json : Text
activity_json = codes "application/activity+json"

abbrev pub self_link : Text → Value
self_link actor_url = object (
    field (codes "rel") (text (codes "self"))
      (field (codes "type") (text activity_json) (field (codes "href") (text actor_url) end)))

-- buildWebFingerResource({ username, host, actorUrl, aliases })
unfoldable pub build_webfinger_resource : Text → Text → Text → List Text → Option Value
unfolding build_acct to_items
build_webfinger_resource username host actor_url aliases = elim (build_acct username host) [
  | none ↦ none
  | some subject ↦
      if length actor_url == 0
      then none
      else some (
          object (
            field (codes "subject") (text subject) (
              field (codes "aliases") (array (to_items (map text (actor_url ∷ aliases))))
                (field (codes "links") (array (cons (self_link actor_url) nil)) end))))
]

-- buildWebFingerRequestUrl(host, username), with the resource on the same host
unfoldable pub build_webfinger_request_url : (Text → Text) → Text → Text → Option Text
unfolding build_acct
build_webfinger_request_url encode host username = elim (build_acct username host) [
  | none ↦ none
  | some resource ↦
      some (
        codes "https://" ++ (host ++ (codes "/.well-known/webfinger?resource=" ++ encode resource)))
]

-- entry[name] === value
unfoldable pub field_is : Value → Text → Text → Bool
unfolding get_field as_text
field_is entry name value = elim (as_text (get_field entry name)) [
  | none ↦ false
  | some t ↦ text_eq t value
]

-- link?.href ?? null
unfoldable pub or_null : Value → Value
or_null undefined = null
or_null v = v

-- A property of undefined or of null is a TypeError.
unfoldable pub is_nullish : Value → Bool
is_nullish undefined = true
is_nullish null = true
is_nullish _ = false

-- links.find((entry) => …)
unfoldable pub find_self : List Value → Option Value
unfolding field_is or_null is_nullish
find_self [] = some null
find_self (entry ∷ entries) =
    let rest = find_self entries in
    if is_nullish entry
    then none
    else if field_is entry (codes "rel") (codes "self")
        && field_is entry (codes "type") activity_json
    then some (or_null (get_field entry (codes "href")))
    else rest

-- (links ?? []).find(…)
unfoldable pub find_link : Value → Option Value
unfolding find_self items
find_link undefined = some null
find_link null = some null
find_link (array xs) = find_self (items xs)
find_link _ = none

-- actorUrlFromWebFinger(jrd)
unfoldable pub actor_url_from_webfinger : Value → Option Value
unfolding find_link get_field
actor_url_from_webfinger jrd = find_link (get_field jrd (codes "links"))
