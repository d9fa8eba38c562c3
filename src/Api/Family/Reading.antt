-- ===== src/Api/Family/Reading.antt =====
-- What the handlers of internal/api/family_connections.go show is only read.
use scouting_app.Base.{ℕ, String, Bool, true, false, List, [], ◌∷◌, if◌then◌else◌}
use scouting_app.Calendar.{Time}
use scouting_app.Profile.{Profile, ParentYouthConnection, adult, member_type_eq}
use scouting_app.Db.{Result, ok, err}
use scouting_app.Db.Errors.{Reads, Reads-pure, Reads-bind, Reads-attempt, Reads-query}
use scouting_app.Storage.Profiles.{get_profile_by_id, get_profile_by_user_id}
use scouting_app.Storage.Links.{list_links_by_parent, list_links_by_youth}
use scouting_app.Storage.Rbac.{get_users_by_permission}
use scouting_app.Auth.{Session}
use scouting_app.Api.Rules.{is_admin-Reads, current_profile_id-Reads}
use scouting_app.Api.Family.{
  admin_emails, notify_users, notify_admins, connection_views, build_connections, render_page,
  connections_of, connection_added,
}

admin_emails-Reads : (ids : List String) → Reads (admin_emails ids)
unfolding admin_emails get_profile_by_user_id
admin_emails-Reads [] = Reads-pure _
admin_emails-Reads (id ∷ ids) =
    Reads-bind _ _ (Reads-attempt _ (Reads-query _))
      (λ r. Reads-bind _ _ (admin_emails-Reads ids) (λ es. Reads-pure _))

notify_users-Reads : (r : Result (List String)) → Reads (notify_users r)
unfolding notify_users
notify_users-Reads (err e) = Reads-pure _
notify_users-Reads (ok ids) = Reads-bind _ _ (admin_emails-Reads ids) (λ es. Reads-pure _)

notify_admins-Reads : Reads notify_admins
unfolding notify_admins get_users_by_permission
notify_admins-Reads = Reads-bind _ _ (Reads-attempt _ (Reads-query _)) notify_users-Reads

module _ (date_of : ℕ → Time) (cookie : Result Session) where
  connection_views-Reads :
      (b : Bool) (ls : List ParentYouthConnection) → Reads (connection_views date_of cookie b ls)
  unfolding connection_views get_profile_by_id
  connection_views-Reads b [] = Reads-pure _
  connection_views-Reads b (l ∷ ls) =
      Reads-bind _ _ (Reads-attempt _ (Reads-query _))
        (λ r. Reads-bind _ _ (connection_views-Reads b ls) (λ vs. Reads-pure _))

  pub render_page-Reads :
      (vs : _) (b : Bool) (error success : String)
      → Reads (render_page date_of cookie vs b error success)
  unfolding render_page
  render_page-Reads vs b error success =
      Reads-bind _ _ (is_admin-Reads cookie)
        (λ a. Reads-bind _ _ (current_profile_id-Reads cookie) (λ id. Reads-pure _))

  listed-Reads :
      (b : Bool) (id : String)
      → Reads (if b then list_links_by_parent id else list_links_by_youth id)
  unfolding list_links_by_parent list_links_by_youth
  listed-Reads true id = Reads-query _
  listed-Reads false id = Reads-query _

  pub connections_of-Reads :
      (p : Profile) (error success : String) → Reads (connections_of date_of cookie p error success)
  unfolding connections_of build_connections
  connections_of-Reads p error success =
      Reads-bind _ _
        (Reads-bind _ _ (Reads-attempt _ (listed-Reads (member_type_eq p.member_type adult) p.id))
          (λ ls. connection_views-Reads _ _))
        (λ vs. render_page-Reads vs _ error success)

  pub connection_added-Reads :
      (p : Profile) (r : Result ParentYouthConnection) → Reads (connection_added date_of cookie p r)
  unfolding connection_added
  connection_added-Reads p (err e) = connections_of-Reads p _ _
  connection_added-Reads p (ok l) =
      Reads-bind _ _ notify_admins-Reads
        (λ ns. Reads-bind _ _ (connections_of-Reads p _ _) (λ ws. Reads-pure _))
