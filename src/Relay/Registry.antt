-- ===== src/Relay/Registry.antt =====
-- packages/relay/src/registry.js: ActorRegistry, two Maps to the same records.
use qu_v.Prelude.{◌≡◌, Text, Option, some, [], ite, text_dec}
use qu_v.Core.JsMap
use qu_v.As2.Value.{Value}
use qu_v.Core.JsMap.{Entries, find}
use qu_v.Core.JsMap.Laws.{find-put}

-- A record { actor, username }: `actor_id` is actor.id, and `document` the actor's whole document.
pub record LocalActor : Type 0 where
  pub actor_id : Text
  pub username : Text
  pub document : Value

pub record Registry : Type 0 where
  pub usernames : Entries LocalActor
  pub ids : Entries LocalActor

unfoldable pub no_actors : Registry
no_actors = record { usernames = []; ids = [] }

-- register(record)
unfoldable pub register : Registry → LocalActor → Registry
register r a = record {
  usernames = JsMap.put r.usernames a.username a;
  ids = JsMap.put r.ids a.actor_id a;
}

-- byUsername(username)
unfoldable pub by_username : Registry → Text → Option LocalActor
unfolding find
by_username r username = find r.usernames username

-- byId(id)
unfoldable pub by_id : Registry → Text → Option LocalActor
unfolding find
by_id r id = find r.ids id

-- After register() of a record, byUsername() gives it for its username and byId() for its actor's id,
-- and both give for every other text what they gave before.
register-by_id :
    (r : Registry) (a : LocalActor) (t : Text)
    → (by_username (register r a) t ≡ ite (text_dec t a.username) (some a) (by_username r t))
      × (by_id (register r a) t ≡ ite (text_dec t a.actor_id) (some a) (by_id r t))
unfolding by_username by_id register
register-by_id r a t = (find-put r.usernames a.username t a, find-put r.ids a.actor_id t a)
