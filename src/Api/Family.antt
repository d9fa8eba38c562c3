-- ===== src/Api/Family.antt =====
-- The handlers of internal/api/family_connections.go. `date_of` gives the date of a moment, which
-- Time.Format writes.
pub mod Reading
pub mod Requests
pub mod Tests
use scouting_app.Base.{
  ℕ, String, Bool, true, false, not, ◌&&◌, ◌||◌, List, [], ◌∷◌, ◌++◌, Option, none, some, ◌==◌, any,
  if◌then◌else◌,
}
use scouting_app.Text.{concat}
use scouting_app.Text.Casing.{trim_space}
use scouting_app.Calendar.{Time}
use scouting_app.Profile.{
  Profile, User, ParentYouthConnection, pending, adult, youth, inactive, member_type_eq, status_eq,
  link_status_eq, display_name,
}
use scouting_app.Db.{Result, ok, err, Db, pure, attempt, time_now, ◌>>=◌}
use scouting_app.Storage.Profiles.{get_profile_by_id, get_profile_by_user_id, get_profile_by_bsa_id}
use scouting_app.Storage.Links.{list_links_by_parent, list_links_by_youth, create_link}
use scouting_app.Storage.Rbac.{get_users_by_permission}
use scouting_app.Auth.{Session, get_authenticated_user}
use scouting_app.Views.{format_date}
use scouting_app.Pages.{ConnectionView, ConnectionsPage}
use scouting_app.Api.{
  Write, Handler, view, connections_page, send_notification, internal_error, redirect_to, resolve,
  on_error, resolve_user, is_admin, current_profile_id,
}

-- notifyAdmins' loop; a profile that is not found is left out.
unfoldable pub email_of : Result Profile → List String
email_of (err e) = []
email_of (ok p) = if status_eq p.status inactive || p.email == "" then [] else p.email ∷ []

unfoldable pub admin_emails : List String → Db (List String)
unfolding email_of
admin_emails [] = pure []
admin_emails (id ∷ ids) = do
  found ← attempt (get_profile_by_user_id id)
  emails ← admin_emails ids
  pure (email_of found ++ emails)

unfoldable pub notification : List String → List Write
notification [] = []
notification (email ∷ emails) =
    send_notification (email ∷ emails) "New Family Connection Request" (
      concat (
        "A new family connection request has been submitted and is awaiting your review.\n\n"
        ∷ "Please visit the admin panel to review and approve or reject the request:\n"
        ∷ "http://localhost:8080/admin/connections" ∷ []))
    ∷ []

unfoldable pub notify_users : Result (List String) → Db (List Write)
unfolding admin_emails notification
notify_users (err e) = pure []
notify_users (ok ids) = do emails ← admin_emails ids; pure (notification emails)

unfoldable pub notify_admins : Db (List Write)
unfolding notify_users
notify_admins = attempt (get_users_by_permission "admin:connections") >>= notify_users

-- A youth's pending request of the same parent is among the links that were listed.
unfoldable pub is_requested : String → Result (List ParentYouthConnection) → Bool
is_requested youth_id (err e) = false
is_requested youth_id (ok links) =
    any (λ l. l.youth_profile_id == youth_id && link_status_eq l.status pending) links

-- Why a profile may not be connected as a youth.
unfoldable pub youth_refusal : Profile → Option String
youth_refusal p =
    if not (member_type_eq p.member_type youth)
    then some "That BSA ID belongs to an adult, not a youth."
    else elim p.user_id [ none ↦ none | some id ↦ some "This youth already has a linked account." ]

unfoldable pub links_or_none : Result (List ParentYouthConnection) → List ParentYouthConnection
links_or_none (err e) = []
links_or_none (ok links) = links

module _ (date_of : ℕ → Time) (cookie : Result Session) where
  unfoldable pub connection_view : ParentYouthConnection → Result Profile → List ConnectionView
  unfolding format_date display_name
  connection_view l (err e) = []
  connection_view l (ok p) =
      record {
        other_profile_id = p.id;
        other_name = display_name p;
        other_inactive = status_eq p.status inactive;
        status = l.status;
        requested_at = format_date (date_of l.requested_at);
      }
      ∷ []

  unfoldable pub connection_views : Bool → List ParentYouthConnection → Db (List ConnectionView)
  unfolding connection_view
  connection_views is_adult [] = pure []
  connection_views is_adult (l ∷ links) = do
    other ←
        attempt (get_profile_by_id (if is_adult then l.youth_profile_id else l.parent_profile_id))
    rest ← connection_views is_adult links
    pure (connection_view l other ++ rest)

  unfoldable pub build_connections : String → Bool → Db (List ConnectionView)
  unfolding connection_views links_or_none
  build_connections profile_id is_adult = do
    links ←
        attempt
          (if is_adult then list_links_by_parent profile_id else list_links_by_youth profile_id)
    connection_views is_adult (links_or_none links)

  unfoldable pub render_page : List ConnectionView → Bool → String → String → Handler
  render_page connections is_adult error success = do
    admin ← is_admin cookie
    id ← current_profile_id cookie
    pure (
        view (
          connections_page (record {
            title = "Family Connections";
            is_admin = admin;
            profile_id = id;
            connections = connections;
            is_adult = is_adult;
            error = error;
            success = success;
          }))
        ∷ [])

  abbrev pub login_first : List Write
  login_first = redirect_to "/login?redirect=/family-connections"

  unfoldable pub connections_of : Profile → String → String → Handler
  unfolding build_connections render_page
  connections_of p error success = do
    let is_adult = member_type_eq p.member_type adult
    connections ← build_connections p.id is_adult
    render_page connections is_adult error success

  unfoldable pub family_connections_page : Handler
  unfolding connections_of resolve_user on_error
  family_connections_page =
      get_authenticated_user cookie
      >>= resolve_user login_first (λ user.
        on_error (get_profile_by_user_id user.id) internal_error (λ p. connections_of p "" ""))

  unfoldable pub connection_added : Profile → Result ParentYouthConnection → Handler
  unfolding connections_of notify_admins
  connection_added parent (err e) = connections_of parent "An error occurred. Please try again." ""
  connection_added parent (ok l) = do
    notes ← notify_admins
    shown ← connections_of parent "" "Request sent! An admin will review the link request."
    pure (notes ++ shown)

  unfoldable pub request_connection : Profile → Profile → Handler
  unfolding connection_added connections_of is_requested
  request_connection parent p = do
    links ← attempt (list_links_by_parent parent.id)
    if is_requested p.id links
        then connections_of parent "You already have a pending request for this youth." ""
        else (do
          now ← time_now
          added ← attempt (
              create_link (record {
                id = "";
                parent_profile_id = parent.id;
                youth_profile_id = p.id;
                status = pending;
                requested_at = now;
                approved_at = none;
                approved_by = none;
                created_at = 0;
              }))
          connection_added parent added)

  unfoldable pub connect_found : Profile → Result Profile → Handler
  unfolding request_connection connections_of youth_refusal
  connect_found parent (err e) = connections_of parent "No profile found with that BSA ID." ""
  connect_found parent (ok p) = elim (youth_refusal p) [
    | some message ↦ connections_of parent message ""
    | none ↦ request_connection parent p
  ]

  unfoldable pub connect_parent : String → Result Profile → Handler
  unfolding connect_found render_page
  connect_parent bsa_id (err e) =
      render_page [] false "Could not find your profile. Please contact support." ""
  connect_parent bsa_id (ok parent) =
      attempt (get_profile_by_bsa_id bsa_id) >>= connect_found parent

  unfoldable pub add_connection : String → Handler
  unfolding connect_parent render_page resolve_user
  add_connection field =
      get_authenticated_user cookie
      >>= resolve_user login_first (λ user.
        let bsa_id = trim_space field in
        if bsa_id == ""
        then render_page [] false "Please enter the youth's BSA ID." ""
        else attempt (get_profile_by_user_id user.id) >>= connect_parent bsa_id)
