-- ===== src/Storage/Links.antt =====
-- internal/storage/postgres/parentyouthlink_repository.go
use scouting_app.Base.{
  String, not, ◌&&◌, ◌||◌, List, [], ◌∷◌, ◌++◌, Option, none, some, ◌==◌, any, find, where_,
  update_where, if◌then◌else◌,
}
use scouting_app.Profile.{ParentYouthConnection, LinkStatus, link_status_eq}
use scouting_app.Db.{
  World, Tables, Result, ok, err, constraint, link_not_found, Db, pure, statement, query, new_uuid,
  ◌>>=◌, first,
}
use scouting_app.Storage.Profiles.{coalesce_time, truncate_micro}

unfoldable pub insert_link : ParentYouthConnection → World → Result ParentYouthConnection × Tables
insert_link l w =
    if any (λ q. q.id == l.id) w.links
      || not (
          any (λ p. p.id == l.parent_profile_id) w.profiles
          && any (λ p. p.id == l.youth_profile_id) w.profiles)
    then (err constraint, w.tables)
    else (
      ok l,
      record w.tables {
        links =
            w.links
            ++ record l {
              requested_at = coalesce_time l.requested_at w;
              created_at = coalesce_time l.created_at w;
            }
              ∷ [];
      },
    )

unfoldable pub create_link : ParentYouthConnection → Db ParentYouthConnection
unfolding insert_link
create_link l = do
  id ← if l.id == "" then new_uuid else pure l.id
  statement (insert_link (record l { id = id }))

unfoldable pub get_link_by_id : String → Db ParentYouthConnection
get_link_by_id id = query (λ w. first (find (λ l. l.id == id) w.links) link_not_found)

unfoldable pub list_links : Db (List ParentYouthConnection)
list_links = query (λ w. ok w.links)

unfoldable pub list_links_by_parent : String → Db (List ParentYouthConnection)
list_links_by_parent id = query (λ w. ok (where_ (λ l. l.parent_profile_id == id) w.links))

unfoldable pub list_links_by_youth : String → Db (List ParentYouthConnection)
list_links_by_youth id = query (λ w. ok (where_ (λ l. l.youth_profile_id == id) w.links))

unfoldable pub list_links_by_status : LinkStatus → Db (List ParentYouthConnection)
list_links_by_status status = query (λ w. ok (where_ (λ l. link_status_eq l.status status) w.links))

-- nullString
abbrev null_string : String → Option String
null_string s = if s == "" then none else some s

unfoldable pub update_link_status : String → LinkStatus → String → Db (Unit {0})
update_link_status id status approved_by = statement (λ w.
    if (any (λ l. l.id == id) w.links && not (approved_by == ""))
      && not (any (λ u. u.id == approved_by) w.users)
    then (err constraint, w.tables)
    else (
      ok tt,
      record w.tables {
        links =
            update_where (λ l. l.id == id)
              (λ l. record l {
                status = status;
                approved_by = null_string approved_by;
                approved_at = some (truncate_micro w.now);
              })
              w.links;
      },
    ))
