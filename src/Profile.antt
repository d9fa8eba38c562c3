-- ===== src/Profile.antt =====
-- internal/domain/profile/profile.go, internal/domain/user/user.go, internal/domain/rbac/rbac.go and
-- internal/domain/parentyouthlink/link.go. The constants of a string type are a data type where the
-- database's CHECK constraints admit no other text.
use Prim.Native.String.{◌++◌}
use scouting_app.Base.{ℕ, String, Bool, false, true, Option, ◌==◌, not, if◌then◌else◌}
use scouting_app.Calendar.{Time}

pub data MemberType : Type 0 where
  adult youth : MemberType

pub data Status : Type 0 where
  active inactive disabled : Status

pub record Profile : Type 0 where
  pub id : String
  pub bsa_id : String
  pub first_name : String
  pub last_name : String
  pub nickname : String
  pub gender : String
  pub email : String
  pub phone : String
  pub birthdate : Time
  pub member_type : MemberType
  pub status : Status
  pub user_id : Option String
  pub positions : String
  pub created_at : ℕ
  pub updated_at : ℕ

unfoldable pub display_name : Profile → String
display_name p =
    if not (p.nickname == "")
    then p.nickname ++ (" (" ++ (p.first_name ++ (") " ++ p.last_name)))
    else p.first_name ++ (" " ++ p.last_name)

abbrev pub member_type_eq : MemberType → MemberType → Bool
member_type_eq adult adult = true
member_type_eq youth youth = true
member_type_eq _ _ = false

abbrev pub status_eq : Status → Status → Bool
status_eq active active = true
status_eq inactive inactive = true
status_eq disabled disabled = true
status_eq _ _ = false

pub record User : Type 0 where
  pub id : String
  pub email : String
  pub password_hash : String
  pub created_at : ℕ

pub record Role : Type 0 where
  pub id : String
  pub name : String

pub record Permission : Type 0 where
  pub id : String
  pub name : String

pub data LinkStatus : Type 0 where
  pending approved rejected revoked : LinkStatus

abbrev pub link_status_eq : LinkStatus → LinkStatus → Bool
link_status_eq pending pending = true
link_status_eq approved approved = true
link_status_eq rejected rejected = true
link_status_eq revoked revoked = true
link_status_eq _ _ = false

pub record ParentYouthConnection : Type 0 where
  pub id : String
  pub parent_profile_id : String
  pub youth_profile_id : String
  pub status : LinkStatus
  pub requested_at : ℕ
  pub approved_at : Option ℕ
  pub approved_by : Option String
  pub created_at : ℕ
