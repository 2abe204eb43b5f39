-- ===== src/Relay/Paths.antt =====
-- packages/relay/src/ap-router.js: what actorMatch reads in a path, the name of an actor and a part of it.
use qu_v.Prelude.{
  not, Text, codes, Option, none, some, List, [], ◌∷◌, length, ◌==◌, ◌&&◌, if◌then◌else◌, text_eq,
}
use qu_v.ApCore.Signature.{split}

-- The optional last part of an actor's path.
pub data Sub : Type 0 where
  whole inbox outbox followers following : Sub

unfoldable pub sub_of : Text → Option Sub
sub_of t =
    if text_eq t (codes "inbox")
    then some inbox
    else if text_eq t (codes "outbox")
    then some outbox
    else if text_eq t (codes "followers")
    then some followers
    else if text_eq t (codes "following")
    then some following
    else none

-- /actors/<name>, with the name and what follows it
unfoldable pub actor_path : Text → Text → Text → Option Sub → Option (Text × Sub)
actor_path root segment name none = none
actor_path root segment name (some sub) =
    if length root == 0 && (text_eq segment (codes "actors") && not (length name == 0))
    then some (name, sub)
    else none

-- /^\/actors\/([^/]+)(?:\/(inbox|outbox|followers|following))?$/, on the parts between the slashes
unfoldable pub match_parts : List Text → Option (Text × Sub)
unfolding actor_path sub_of
match_parts (a ∷ b ∷ name ∷ []) = actor_path a b name (some whole)
match_parts (a ∷ b ∷ name ∷ sub ∷ []) = actor_path a b name (sub_of sub)
match_parts _ = none

unfoldable pub match_actor : Text → Option (Text × Sub)
unfolding match_parts split
match_actor pathname = match_parts (split b'/' pathname)
