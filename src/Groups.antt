-- ===== src/Groups.antt =====
-- packages/ap-groups/src/membership.js: GroupMembership, over ApStore.
pub mod Members
use qu_v.Prelude.{ℕ, Bool, true, false, Text, codes, Option, none, some, List, [], ◌∷◌, ◌++◌}
use qu_v.Core.Storage.{Operations}
use qu_v.As2.Value.{Value, text, number, object, field, end, get_field, as_text}
use qu_v.Store.{Stored, ApStore}
use qu_v.Store.Methods
use qu_v.Store.Methods.{put, get, delete, get_children}

-- The delimiter in membershipRecordId(), '\x02'
abbrev pub member_delim : ℕ
member_delim = 2

unfoldable pub membership_record_id : Text → Text → Text
membership_record_id group_id member_id =
    codes "urn:qu:group-member:" ++ (group_id ++ member_delim ∷ member_id)

unfoldable pub members_collection : Text → Text
members_collection group_id = group_id ++ codes "/members"

-- { id, groupId, memberId, joinedAt }
unfoldable pub member_record : Text → Text → ℕ → Value
unfolding membership_record_id
member_record group_id member_id joined_at = object (
    field (codes "id") (text (membership_record_id group_id member_id)) (
      field (codes "groupId") (text group_id) (
        field (codes "memberId") (text member_id)
          (field (codes "joinedAt") (number joined_at) end))))

-- entries.map((e) => e.memberId)
unfoldable pub member_ids : List Value → List Value
unfolding get_field
member_ids [] = []
member_ids (v ∷ vs) = get_field v (codes "memberId") ∷ member_ids vs

module _ {S : Type 0} (o : Operations S Stored) (group_id : Text) where
  -- addMember(memberId, { joinedAt }) at the time `now`
  unfoldable pub add_member : ApStore S → Text → ℕ → ℕ → ApStore S × Methods.Result Value
  unfolding members_collection member_record
  add_member s member_id joined_at now =
      put o s (member_record group_id member_id joined_at)
        (record {
          collections = members_collection group_id ∷ [];
          durability = codes "persistent";
          session_id = none;
          ts = joined_at;
        })
        now

  -- removeMember(memberId)
  unfoldable pub remove_member : ApStore S → Text → ApStore S × Methods.Result (Unit {0})
  remove_member s member_id = delete o s (membership_record_id group_id member_id)

  unfoldable pub is_present : Option Value → Bool
  is_present none = false
  is_present (some v) = true

  -- isMember(memberId)
  unfoldable pub is_member : ApStore S → Text → Bool
  unfolding is_present
  is_member s member_id = is_present (get o s (membership_record_id group_id member_id))

  -- listMembers({ limit })
  unfoldable pub list_members : ApStore S → Option ℕ → List Value
  unfolding member_ids members_collection
  list_members s limit = member_ids (get_children o s (members_collection group_id) limit)
