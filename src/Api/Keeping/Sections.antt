-- ===== src/Api/Keeping/Sections.antt =====
-- What the writers keep, the handlers of the cooking and the tenting tab of internal/api/events.go
-- keep.
use scouting_app.Base.{String, false, not, List, [], ◌∷◌, Option, ◌==◌, ◌||◌, any}
use scouting_app.Event.{Event}
use scouting_app.Tenting.{Violation}
use scouting_app.Db.{Tables, Result, ok, err, Db}
use scouting_app.Db.Keeps.{Keeps, Keeps-bind, Keeps-pure, Keeps-query, Keeps-if, Keeps-attempt}
use scouting_app.Db.Errors.{Keeps-Reads}
use scouting_app.Storage.Events.{get_event_by_id}
use scouting_app.TentService
use scouting_app.Auth.{Session}
use scouting_app.Api.{Handler}
use scouting_app.Api.Rules.{
  Keeps-on_error, Keeps-resolve_user, get_authenticated_user-Reads, is_admin-Reads, is_past-Reads,
}
use scouting_app.Api.Reading.{
  list_cooking_patrols-Reads, render_cooking_section-Reads, render_tenting_section-Reads,
  tent_max_age_gap-Reads,
}
use scouting_app.Api.Cooking as Cooking
use scouting_app.Api.Cooking.{
  cooking_prereqs, cooking_create_patrol, cooking_delete_patrol, cooking_assign_member,
  cooking_remove_member, cooking_set_cook, cooking_clear_cook,
}
use scouting_app.Api.Tents as Tents
use scouting_app.Api.Tents.{
  tent_prereqs, tent_create, tent_delete, tent_assign_member, tent_remove_member,
}
use scouting_app.Api.Keeping.{WritersKeep}
use scouting_app.Api.Keeping.Services.{leave_patrol-Keeps, join_patrol-Keeps, join_tent-Keeps}

module _ (cookie : Result Session) {P : Tables → Type 0} where
  cooking_prereqs-Keeps :
      (e : String) (next : Handler) → Keeps P next → Keeps P (cooking_prereqs cookie e next)
  unfolding cooking_prereqs Cooking.event_prereqs get_event_by_id
  cooking_prereqs-Keeps e next h =
      Keeps-bind _ _ (Keeps-Reads _ (get_authenticated_user-Reads cookie)) (λ o.
        Keeps-resolve_user _ _ o (λ u.
          Keeps-bind _ _ (Keeps-Reads _ (is_admin-Reads cookie)) (λ admin.
            Keeps-if (not admin) _ _ (λ a. Keeps-pure _)
              (λ a.
                Keeps-if (e == "") _ _ (λ b. Keeps-pure _)
                  (λ b. Keeps-on_error _ _ _ (Keeps-query _) (λ evt.
                    Keeps-if (not evt.cooking_enabled) _ _ (λ c. Keeps-pure _)
                      (λ c.
                        Keeps-bind _ _ (Keeps-Reads _ (is_past-Reads evt))
                          (λ past. Keeps-if past _ _ (λ d. Keeps-pure _) (λ d. h)))))))))

  then_cooking-Keeps :
      {A : Type 0} (e : String) (change : Db A)
      → Keeps P change
      → Keeps P (Cooking.then_render cookie e change)
  unfolding Cooking.then_render
  then_cooking-Keeps e change h =
      Keeps-on_error _ _ _ h (λ done. Keeps-Reads _ (render_cooking_section-Reads cookie e))

  resolve_assign-Keeps :
      (e : String) (r : Result (Unit {0})) → Keeps P (Cooking.resolve_assign cookie e r)
  unfolding Cooking.resolve_assign
  resolve_assign-Keeps e (ok done) = Keeps-Reads _ (render_cooking_section-Reads cookie e)
  resolve_assign-Keeps e (err x) = Keeps-pure _

  module _ (k : WritersKeep P) where
    pub create_patrol-Keeps : (e : String) → Keeps P (cooking_create_patrol cookie e)
    unfolding cooking_create_patrol
    create_patrol-Keeps e =
        cooking_prereqs-Keeps e _ (then_cooking-Keeps e _ (k.create_cooking_patrol e false))

    pub delete_patrol-Keeps : (e i : String) → Keeps P (cooking_delete_patrol cookie e i)
    unfolding cooking_delete_patrol
    delete_patrol-Keeps e i = cooking_prereqs-Keeps e _ (
        Keeps-if (i == "") _ _ (λ q. Keeps-pure _)
          (λ q. then_cooking-Keeps e _ (k.delete_cooking_patrol i)))

    pub assign_patrol_member-Keeps : (e i p : String) → Keeps P (cooking_assign_member cookie e i p)
    unfolding cooking_assign_member
    assign_patrol_member-Keeps e i p = cooking_prereqs-Keeps e _ (
        Keeps-if (p == "" || i == "") _ _ (λ q. Keeps-pure _)
          (λ q.
            Keeps-bind _ _ (Keeps-attempt _ (join_patrol-Keeps k e i p))
              (λ r. resolve_assign-Keeps e r)))

    pub remove_patrol_member-Keeps : (e i p : String) → Keeps P (cooking_remove_member cookie e i p)
    unfolding cooking_remove_member
    remove_patrol_member-Keeps e i p = cooking_prereqs-Keeps e _ (
        Keeps-if (i == "" || p == "") _ _ (λ q. Keeps-pure _)
          (λ q. then_cooking-Keeps e _ (leave_patrol-Keeps k e p)))

    pub set_cook-Keeps : (e i p : String) → Keeps P (cooking_set_cook cookie e i p)
    unfolding cooking_set_cook
    set_cook-Keeps e i p = cooking_prereqs-Keeps e _ (
        Keeps-if (i == "" || p == "") _ _ (λ q. Keeps-pure _)
          (λ q. Keeps-on_error _ _ _ (Keeps-Reads _ (list_cooking_patrols-Reads e)) (λ ps.
            Keeps-if (not (any (λ c. c.id == i) ps)) _ _ (λ r. Keeps-pure _)
              (λ r. then_cooking-Keeps e _ (k.set_cooking_patrol_cook e i p)))))

    pub clear_cook-Keeps : (e i : String) → Keeps P (cooking_clear_cook cookie e i)
    unfolding cooking_clear_cook
    clear_cook-Keeps e i = cooking_prereqs-Keeps e _ (
        Keeps-if (i == "") _ _ (λ q. Keeps-pure _)
          (λ q. then_cooking-Keeps e _ (k.clear_cooking_patrol_cook i)))

module _ (env : String → Option String) (cookie : Result Session) {P : Tables → Type 0} where
  tent_prereqs-Keeps :
      (e : String) (next : Event → Handler)
      → ((evt : Event) → Keeps P (next evt))
      → Keeps P (tent_prereqs env cookie e next)
  unfolding tent_prereqs Tents.event_prereqs get_event_by_id
  tent_prereqs-Keeps e next h =
      Keeps-bind _ _ (Keeps-Reads _ (get_authenticated_user-Reads cookie)) (λ o.
        Keeps-resolve_user _ _ o (λ u.
          Keeps-bind _ _ (Keeps-Reads _ (is_admin-Reads cookie)) (λ admin.
            Keeps-if (not admin) _ _ (λ a. Keeps-pure _)
              (λ a.
                Keeps-if (e == "") _ _ (λ b. Keeps-pure _)
                  (λ b. Keeps-on_error _ _ _ (Keeps-query _) (λ evt.
                    Keeps-if (not evt.tenting_enabled) _ _ (λ c. Keeps-pure _)
                      (λ c.
                        Keeps-bind _ _ (Keeps-Reads _ (is_past-Reads evt))
                          (λ past. Keeps-if past _ _ (λ d. Keeps-pure _) (λ d. h evt)))))))))

  then_tenting-Keeps :
      {A : Type 0} (evt : Event) (change : Db A)
      → Keeps P change
      → Keeps P (Tents.then_render env cookie evt change)
  unfolding Tents.then_render
  then_tenting-Keeps evt change h =
      Keeps-on_error _ _ _ h (λ done. Keeps-Reads _ (render_tenting_section-Reads env cookie evt))

  resolve_violations-Keeps :
      (evt : Event) (r : Result (List Violation)) → Keeps P (Tents.resolve_assign env cookie evt r)
  unfolding Tents.resolve_assign
  resolve_violations-Keeps evt (err x) = Keeps-pure _
  resolve_violations-Keeps evt (ok []) = Keeps-Reads _ (render_tenting_section-Reads env cookie evt)
  resolve_violations-Keeps evt (ok (v ∷ vs)) = Keeps-pure _

  module _ (k : WritersKeep P) where
    pub tent_create-Keeps : (e : String) → Keeps P (tent_create env cookie e)
    unfolding tent_create
    tent_create-Keeps e =
        tent_prereqs-Keeps e _ (λ evt. then_tenting-Keeps evt _ (k.create_tent evt.id))

    pub tent_delete-Keeps : (e i : String) → Keeps P (tent_delete env cookie e i)
    unfolding tent_delete
    tent_delete-Keeps e i = tent_prereqs-Keeps e _ (λ evt.
        Keeps-if (i == "") _ _ (λ q. Keeps-pure _)
          (λ q. then_tenting-Keeps evt _ (k.delete_tent i)))

    pub tent_assign_member-Keeps : (e i p : String) → Keeps P (tent_assign_member env cookie e i p)
    unfolding tent_assign_member
    tent_assign_member-Keeps e i p = tent_prereqs-Keeps e _ (λ evt.
        Keeps-if (p == "" || i == "") _ _ (λ q. Keeps-pure _)
          (λ q. Keeps-bind _ _ (Keeps-Reads _ (tent_max_age_gap-Reads env)) (λ gap.
            Keeps-bind _ _ (Keeps-attempt _ (join_tent-Keeps k evt.id i p gap))
              (λ r. resolve_violations-Keeps evt r))))

    pub tent_remove_member-Keeps : (e p : String) → Keeps P (tent_remove_member env cookie e p)
    unfolding tent_remove_member TentService.remove_member
    tent_remove_member-Keeps e p = tent_prereqs-Keeps e _ (λ evt.
        Keeps-if (p == "") _ _ (λ q. Keeps-pure _)
          (λ q. then_tenting-Keeps evt _ (k.remove_tent_member evt.id p)))
