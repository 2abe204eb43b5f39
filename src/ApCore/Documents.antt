-- ===== src/ApCore/Documents.antt =====
-- packages/ap-core/src/collections.js, nodeinfo.js and actor.js: the documents that a server answers
-- with. none is the error for a missing argument; an absent argument is an empty text.
use qu_v.Prelude.{
  ℕ, Bool, false, Text, codes, Option, none, some, List, ◌++◌, length, ◌==◌, ◌||◌, not,
  if◌then◌else◌,
}
use qu_v.As2.Value.{
  Value, boolean, number, text, array, object, nil, cons, Fields, end, field, to_items,
}
use qu_v.As2.Vocabulary.{actor_types, includes}

abbrev pub is_missing : Text → Bool
is_missing t = length t == 0

-- if (value) doc[name] = value
unfoldable pub field_if : Text → Text → Fields → Fields
field_if name t fs = if is_missing t then fs else field name (text t) fs

-- buildOrderedCollection({ id, totalItems, first, last })
unfoldable pub build_ordered_collection : Text → ℕ → Text → Text → Option Value
unfolding field_if
build_ordered_collection id total_items first last =
    if is_missing id
    then none
    else some (
        object (
          field (codes "id") (text id) (
            field (codes "type") (text (codes "OrderedCollection")) (
              field (codes "totalItems") (number total_items)
                (field_if (codes "first") first (field_if (codes "last") last end))))))

-- buildOrderedCollectionPage({ id, partOf, items, next, prev })
unfoldable pub build_ordered_collection_page : Text → Text → List Value → Text → Text → Option Value
unfolding field_if to_items
build_ordered_collection_page id part_of entries next prev =
    if is_missing id || is_missing part_of
    then none
    else some (
        object (
          field (codes "id") (text id) (
            field (codes "type") (text (codes "OrderedCollectionPage")) (
              field (codes "partOf") (text part_of) (
                field (codes "orderedItems") (array (to_items entries))
                  (field_if (codes "next") next (field_if (codes "prev") prev end)))))))

-- buildNodeInfoDiscovery(nodeInfoUrl), of the default version
unfoldable pub build_nodeinfo_discovery : Text → Option Value
build_nodeinfo_discovery url =
    if is_missing url
    then none
    else some (
        object (
          field (codes "links")
            (array (
              cons
                (object (
                  field (codes "rel")
                    (text (codes "http://nodeinfo.diaspora.software/ns/schema/2.1"))
                    (field (codes "href") (text url) end)))
                nil))
            end))

-- services, usage, openRegistration and metadata, at their defaults
abbrev pub nodeinfo_rest : Fields
nodeinfo_rest =
    field (codes "services")
      (object (field (codes "inbound") (array nil) (field (codes "outbound") (array nil) end)))
      (field (codes "usage")
        (object (
          field (codes "users")
            (object (
              field (codes "total") (number 0) (
                field (codes "activeMonth") (number 0)
                  (field (codes "activeHalfyear") (number 0) end))))
            (field (codes "localPosts") (number 0) (field (codes "localComments") (number 0) end))))
        (field (codes "openRegistration") (boolean false)
          (field (codes "metadata") (object end) end)))

-- buildNodeInfo({ softwareName, softwareVersion }), of the default version and protocols
unfoldable pub build_nodeinfo : Text → Text → Option Value
build_nodeinfo name version =
    if is_missing name || is_missing version
    then none
    else some (
        object (
          field (codes "version") (text (codes "2.1")) (
            field (codes "software")
              (object
                (field (codes "name") (text name) (field (codes "version") (text version) end)))
              (field (codes "protocols") (array (cons (text (codes "activitypub")) nil))
                nodeinfo_rest))))

-- The parameters of buildActor(); `kind` is `type`.
pub record ActorParams : Type 0 where
  pub id : Text
  pub kind : Text
  pub preferred_username : Text
  pub name : Text
  pub summary : Text
  pub inbox : Text
  pub outbox : Text
  pub followers : Text
  pub following : Text
  pub shared_inbox : Text
  pub public_key_multibase : Text
  pub rsa_public_key_pem : Text

-- if (sharedInbox) actor.endpoints = { sharedInbox }
unfoldable pub endpoints_if : Text → Fields → Fields
endpoints_if t fs =
    if is_missing t
    then fs
    else field (codes "endpoints") (object (field (codes "sharedInbox") (text t) end)) fs

-- publicKey and assertionMethod
unfoldable pub key_fields : ActorParams → Fields
key_fields p =
    field (codes "publicKey")
      (object (
        field (codes "id") (text (p.id ++ codes "#transport-key")) (
          field (codes "owner") (text p.id)
            (field (codes "publicKeyPem") (text p.rsa_public_key_pem) end))))
      (field (codes "assertionMethod")
        (array (
          cons
            (object (
              field (codes "id") (text (p.id ++ codes "#identity-key")) (
                field (codes "type") (text (codes "Multikey")) (
                  field (codes "controller") (text p.id)
                    (field (codes "publicKeyMultibase") (text p.public_key_multibase) end)))))
            nil))
        end)

-- buildActor(params); `context` is QU_CONTEXT, a constant document.
unfoldable pub build_actor : Value → ActorParams → Option Value
unfolding field_if endpoints_if key_fields includes
build_actor context p =
    if is_missing p.id
      || not (includes actor_types p.kind)
      || is_missing p.inbox
      || is_missing p.outbox
      || is_missing p.public_key_multibase
      || is_missing p.rsa_public_key_pem
    then none
    else some (
        object (
          field (codes "@context") context (
            field (codes "id") (text p.id) (
              field (codes "type") (text p.kind) (
                field (codes "inbox") (text p.inbox) (
                  field (codes "outbox") (text p.outbox) (
                    field_if (codes "preferredUsername") p.preferred_username (
                      field_if (codes "name") p.name (
                        field_if (codes "summary") p.summary (
                          field_if (codes "followers") p.followers (
                            field_if (codes "following") p.following
                              (endpoints_if p.shared_inbox (key_fields p)))))))))))))
