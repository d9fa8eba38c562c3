-- ===== src/Db.antt =====
-- The database behind database/sql, as the repositories of internal/storage/postgres use it: the
-- tables of migrations/, statements that are atomic, transactions, and a connection that may
-- fail at any statement. Which statements fail is the choice of `fault`, a function of how many
-- statements were sent before; the uuids of newUUID and the clock are given by the environment too.
pub mod Keeps
pub mod Runs
pub mod Ensures
pub mod Errors
pub mod Triples
pub mod Tests
use scouting_app.Base.{
  ℕ, suc, ◌+◌, String, Bool, true, false, List, [], ◌∷◌, Option, none, some, any, if◌then◌else◌,
}
use scouting_app.Profile.{Profile, User, Role, Permission, ParentYouthConnection}
use scouting_app.Event.{
  Event, Attendee, Assignment, PatrolRow, PatrolMemberRow, TentRow, TentMemberRow, Responsibility,
}

-- otp_codes
pub record OtpCode : Type 0 where
  pub id : String
  pub email : String
  pub code_hash : String
  pub expires_at : ℕ
  pub used : Bool
  pub attempts : ℕ
  pub created_at : ℕ

pub record Tables : Type 0 where
  pub profiles : List Profile
  pub users : List User
  pub roles : List Role
  pub permissions : List Permission
  pub user_roles : List (String × String)
  pub role_permissions : List (String × String)
  pub otp_codes : List OtpCode
  pub links : List ParentYouthConnection
  pub events : List Event
  pub attendees : List Attendee
  pub assignments : List Assignment
  pub patrols : List PatrolRow
  pub patrol_members : List PatrolMemberRow
  pub tents : List TentRow
  pub tent_members : List TentMemberRow
  pub app_config : List (String × String)

pub record World : Type 0 where
  pub tables : Tables
  pub open tables use *
  pub fault : ℕ → Bool
  pub count : ℕ
  pub uuid : ℕ → String
  pub uuids : ℕ
  pub now : ℕ

-- What a call may return as its error.
pub data Error : Type 0 where
  driver_error constraint no_rows null_scan : Error
  profile_not_found user_not_found role_not_found otp_not_found link_not_found : Error
  event_not_found cooking_patrol_not_found tent_not_found not_a_member : Error
  adult_in_tent adult_in_youth_patrol : Error
  invalid_credentials account_disabled account_inactive admin_role_not_found session_error
        hash_error :
      Error
  singleton_conflict : Responsibility → String → String → String → Error

pub data Result {ℓ} (A : Type ℓ) : Type ℓ where
  ok : A → Result A
  err : Error → Result A

abbrev pub Db : Type 0 → Type 0
Db A = World → Result A × World

module _ {A : Type 0} where
  unfoldable pub pure : A → Db A
  pure a w = (ok a, w)

  unfoldable pub fail : Error → Db A
  fail e w = (err e, w)

  unfoldable pub lift : Result A → Db A
  lift r w = (r, w)

  -- r, err := m(), for code that goes on after an error.
  unfoldable pub attempt : Db A → Db (Result A)
  attempt m w = let (r, w') = m w in (ok r, w')

abbrev pub tick : World → World
tick w = record w { count = suc w.count }

module _ {A : Type 0} where
  -- One statement: it fails as a whole, or works on the tables in one step.
  unfoldable pub statement : (World → Result A × Tables) → Db A
  statement f w =
      if w.fault w.count
      then (err driver_error, tick w)
      else (let (r, t) = f w in (r, record w { tables = t; count = suc w.count }))

  -- A statement that only reads.
  unfoldable pub query : (World → Result A) → Db A
  query f w = if w.fault w.count then (err driver_error, tick w) else (f w, tick w)

  abbrev finish : Tables → Result A × World → Result A × World
  finish t (err e, w) = (err e, record w { tables = t })
  finish t (ok a, w) =
      if w.fault w.count
      then (err driver_error, record w { tables = t; count = suc w.count })
      else (ok a, tick w)

  -- BeginTx, the body, Commit; on an error of any of them Rollback.
  unfoldable pub transaction : Db A → Db A
  transaction m w =
      if w.fault w.count then (err driver_error, tick w) else finish w.tables (m (tick w))

-- newUUID()
unfoldable pub new_uuid : Db String
new_uuid w = (ok (w.uuid w.uuids), record w { uuids = suc w.uuids })

-- time.Now()
unfoldable pub time_now : Db ℕ
time_now w = (ok w.now, w)

module _ {A B : Type 0} where
  abbrev pub continue : Result A → (A → Db B) → Db B
  continue (ok a) f w = f a w
  continue (err e) f w = (err e, w)

  -- if err != nil { return err }. Opening this opens the actions above too.
  infixl 5 ◌>>=◌ ◌>>◌
  unfoldable pub ◌>>=◌ : Db A → (A → Db B) → Db B
  unfolding pure fail lift attempt statement query transaction new_uuid time_now
  ◌>>=◌ m f w = let (r, w') = m w in continue r f w'

  abbrev pub ◌>>◌ : Db A → Db B → Db B
  m >> n = m >>= λ _. n

-- QueryRow(…).Scan(…): the first row, or sql.ErrNoRows.
abbrev pub first {ℓ} : {A : Type ℓ} → Option A → Error → Result A
first none e = err e
first (some a) e = ok a

abbrev pub is_ok {ℓ} : {A : Type ℓ} → Result A → Bool
is_ok (ok a) = true
is_ok (err e) = false
