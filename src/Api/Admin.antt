-- ===== src/Api/Admin.antt =====
-- The permissions of the administration: computeAdminPerms, FirstAvailable and AdminPage of
-- internal/api/admin.go.
use scouting_app.Base.{String, false, List, Option, none, some, ◌==◌, if◌then◌else◌}
use scouting_app.Profile.{User, Permission}
use scouting_app.Db.{Result, ok, err, Db, pure, attempt, ◌>>=◌}
use scouting_app.Storage.Rbac.{get_user_permissions}
use scouting_app.Auth.{Session, get_authenticated_user}
use scouting_app.Pages.{AdminPerms}
use scouting_app.Api.{Write, Handler, answer, redirect_to, resolve_user, permitted}

abbrev pub no_perms : AdminPerms
no_perms = record {
  can_access_roster = false;
  can_access_connections = false;
  can_access_sync = false;
  can_access_rbac = false;
  can_access_settings = false;
}

-- The loop over the permissions sets the field of each name that occurs.
unfoldable pub admin_perms : Result (List Permission) → AdminPerms
unfolding permitted
admin_perms (err e) = no_perms
admin_perms (ok perms) = record {
  can_access_roster = permitted "admin:roster" perms;
  can_access_connections = permitted "admin:connections" perms;
  can_access_sync = permitted "admin:sync" perms;
  can_access_rbac = permitted "admin:rbac" perms;
  can_access_settings = permitted "admin:settings" perms;
}

unfoldable pub compute_admin_perms : String → Db AdminPerms
unfolding admin_perms
compute_admin_perms user_id = do
  perms ← attempt (get_user_permissions user_id)
  pure (admin_perms perms)

unfoldable pub first_available : AdminPerms → String
first_available a =
    if a.can_access_roster
    then "/admin/roster"
    else if a.can_access_rbac
    then "/admin/roles"
    else if a.can_access_connections
    then "/admin/connections"
    else if a.can_access_sync
    then "/admin/sync"
    else if a.can_access_settings
    then "/admin/settings"
    else ""

unfoldable pub first_page : AdminPerms → List Write
unfolding first_available
first_page a =
    let target = first_available a in
    if target == "" then answer 403 "Forbidden" else redirect_to target

-- The permissions that a page shows, of whoever is signed in.
unfoldable pub perms_of_user : Option User → Db AdminPerms
unfolding compute_admin_perms
perms_of_user none = pure no_perms
perms_of_user (some u) = compute_admin_perms u.id

unfoldable pub perms_of : Result Session → Db AdminPerms
unfolding perms_of_user
perms_of cookie = get_authenticated_user cookie >>= perms_of_user

unfoldable pub admin_page : Result Session → Handler
unfolding compute_admin_perms first_page resolve_user
admin_page cookie =
    get_authenticated_user cookie
    >>= resolve_user (redirect_to "/login?redirect=/admin")
        (λ user. do perms ← compute_admin_perms user.id; pure (first_page perms))
