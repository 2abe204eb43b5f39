-- ===== src/As2/Vocabulary.antt =====
-- packages/as2/src/vocabulary.js: the constants, and the durability tiers.
use qu_v.Prelude.{
  Bool, false, Text, codes, Option, none, some, List, [], ◌∷◌, map, text_eq, ◌||◌, if◌then◌else◌,
}

unfoldable pub public_audience : Text
public_audience = codes "https://www.w3.org/ns/activitystreams#Public"

abbrev pub actor_types : List Text
actor_types = map codes ("Application" ∷ "Group" ∷ "Organization" ∷ "Person" ∷ "Service" ∷ [])

abbrev pub activity_types : List Text
activity_types = map codes (
    "Accept" ∷ "Add" ∷ "Announce" ∷ "Block" ∷ "Create" ∷ "Delete" ∷ "Follow" ∷ "Ignore" ∷ "Join"
    ∷ "Leave" ∷ "Like" ∷ "Move" ∷ "Reject" ∷ "Remove" ∷ "Undo" ∷ "Update" ∷ "View" ∷ [])

-- DURABILITY
pub data Tier : Type 0 where
  ephemeral session persistent : Tier

-- list.includes(t)
unfoldable pub includes : List Text → Text → Bool
includes [] t = false
includes (x ∷ xs) t = text_eq t x || includes xs t

-- The tier that a durability option names; isDurabilityTier says whether there is one.
unfoldable pub tier_of : Text → Option Tier
tier_of t =
    if text_eq t (codes "ephemeral")
    then some ephemeral
    else if text_eq t (codes "session")
    then some session
    else if text_eq t (codes "persistent")
    then some persistent
    else none
