-- ===== src/Api/Family/Requests.antt =====
-- What a request for a family connection changes: AddConnection of internal/api/family_connections.go.
use scouting_app.Api.Family.Reading.{
  render_page-Reads, connections_of-Reads, connection_added-Reads,
}
use mathlib.Core.Path.{subst}
use scouting_app.Base.{
  ℕ, String, ◌≡◌, refl, sym, ap, true, false, not, ◌&&◌, ◌||◌, [], ◌∷◌, ◌++◌, none, some, ◌==◌, ◌⊎◌,
  inl, inr, Bool-cases, Option-cases, any, find, arith,
}
use scouting_app.Text.Casing.{trim_space}
use scouting_app.Calendar.{Time}
use scouting_app.Profile.{Profile, User, ParentYouthConnection, pending, youth, member_type_eq}
use scouting_app.Db.{World, Tables, Result, ok, err, first, Db, attempt, ◌>>=◌, profile_not_found}
use scouting_app.Db.Runs.{Found, first-Found}
use scouting_app.Db.Errors.{Reads}
use scouting_app.Db.Triples.{
  Triple, Triple-pure, Triple-bind, Triple-query, Triple-statement, Triple-if, Triple-fail,
  Triple-new_uuid, Triple-time_now, Triple-before, Triple-given, Triple-attempt, Triple-Reads,
}
use scouting_app.Storage.Profiles.{
  get_profile_by_user_id, get_profile_by_bsa_id, has_user, coalesce_time,
}
use scouting_app.Storage.Links.{list_links_by_parent, create_link, insert_link}
use scouting_app.Auth.{Session}
use scouting_app.Api.Access.{user_of}
use scouting_app.Api.SignedIn.{Triple-signed_in}
use scouting_app.Api.Family.{
  request_connection, youth_refusal, connect_found, connect_parent, add_connection, is_requested,
}

youth_refusal-none :
    (p : Profile)
    → youth_refusal p ≡ none
    → (member_type_eq p.member_type youth ≡ true) × (p.user_id ≡ none)
unfolding youth_refusal
youth_refusal-none p h = elim (Bool-cases (member_type_eq p.member_type youth)) [
  | inl q ↦ (
    q,
    elim (Option-cases p.user_id) [
      | inl k ↦ k
      | inr (id, k) ↦ absurd (ground (arith, rw (q, k) at h))
    ],
  )
  | inr q ↦ absurd (ground (arith, rw q at h))
]

module _ (date_of : ℕ → Time) (cookie : Result Session) (T : Tables) where
  -- The link is a pending one from the signed-in user's profile to the profile of a youth, who has
  -- no account, with the id.
  abbrev pub IsRequest : String → ParentYouthConnection → Type 0
  IsRequest bsa_id l =
      (u : User) × (parent : Profile) × (p : Profile) × (user_of cookie T ≡ some u)
      × (find (has_user u.id) T.profiles ≡ some parent)
      × (find (λ q. q.bsa_id == bsa_id) T.profiles ≡ some p)
      × (member_type_eq p.member_type youth ≡ true)
      × (p.user_id ≡ none)
      × (l.parent_profile_id ≡ parent.id)
      × (l.youth_profile_id ≡ p.id)
      × (l.status ≡ pending)

  -- Nothing is changed, or one such link is added.
  abbrev pub Outcome : String → Tables → Type 0
  Outcome bsa_id t =
      (t ≡ T)
      ⊎ ((l : ParentYouthConnection) × IsRequest bsa_id l
          × (t ≡ record T { links = T.links ++ l ∷ [] }))

  abbrev Start : World → Type 0
  Start w = w.tables ≡ T

  abbrev Ends : {A : Type 0} → String → Result A → World → Type 0
  Ends bsa_id r w = Outcome bsa_id w.tables

  Reads-Ends : {A : Type 0} (bsa_id : String) (m : Db A) → Reads m → Triple Start m (Ends bsa_id)
  Reads-Ends bsa_id m k =
      Triple-before (λ w. Outcome bsa_id w.tables) _ (λ w h. inl h)
        (Triple-Reads (Outcome bsa_id) m k)

  module _ (bsa_id : String) (u : User) (parent : Profile) (known : user_of cookie T ≡ some u)
      (own : find (has_user u.id) T.profiles ≡ some parent) where
    create_link-Ends :
        (p : Profile) (l : ParentYouthConnection)
        → ((x : ParentYouthConnection)
            → x.parent_profile_id ≡ l.parent_profile_id
            → x.youth_profile_id ≡ l.youth_profile_id
            → x.status ≡ l.status
            → IsRequest bsa_id x)
        → Triple Start (create_link l) (Ends bsa_id)
    unfolding create_link insert_link
    create_link-Ends p l r =
        Triple-bind (λ id. Start) _ _
          (Triple-if (l.id == "") _ _ (λ q. Triple-new_uuid (λ w h. h))
            (λ q. Triple-pure _ (λ w h. h)))
          (λ id. Triple-statement _ (λ w h. inserted id w h) (λ w h. inl h))
      where
        inserted :
            (id : String) (w : World)
            → Start w
            → Outcome bsa_id (insert_link (record l { id = id }) w).1
        inserted id w h =
            elim (Bool-cases (
              any (λ q. q.id == id) w.links
              || not (
                  any (λ p. p.id == l.parent_profile_id) w.profiles
                  && any (λ p. p.id == l.youth_profile_id) w.profiles))) [
                    | inl q ↦ rw q (inl h)
                    | inr q ↦
                        let row : ParentYouthConnection = record l {
                          id = id;
                          requested_at = coalesce_time l.requested_at w;
                          created_at = coalesce_time l.created_at w;
                        } in
                        let added : Tables → Tables =
                          λ t. record t { links = t.links ++ row ∷ [] } in
                        rw q (inr (row, r row refl refl refl, ap added h))
                  ]

    request :
        (p : Profile)
        → find (λ q. q.bsa_id == bsa_id) T.profiles ≡ some p
        → youth_refusal p ≡ none
        → (x : ParentYouthConnection) → x.parent_profile_id ≡ parent.id
        → x.youth_profile_id ≡ p.id
        → x.status ≡ pending
        → IsRequest bsa_id x
    request p found fits x e f g =
        let (is_youth, no_account) = youth_refusal-none p fits in
        (u, parent, p, known, own, found, is_youth, no_account, e, f, g)

    requested-Ends :
        (p : Profile)
        → find (λ q. q.bsa_id == bsa_id) T.profiles ≡ some p
        → youth_refusal p ≡ none
        → Triple Start (request_connection date_of cookie parent p) (Ends bsa_id)
    unfolding request_connection list_links_by_parent
    requested-Ends p found fits =
        Triple-bind (λ r. Start) _ _ (Triple-attempt _ (Triple-query _ (λ w h. h) (λ w h. h)))
          (λ r.
            Triple-if (is_requested p.id r) _ _
              (λ q. Reads-Ends bsa_id _ (connections_of-Reads date_of cookie parent _ _))
              (λ q.
                Triple-bind (λ t. Start) _ _ (Triple-time_now (λ w h. h))
                  (λ t.
                    Triple-bind (λ r w. Outcome bsa_id w.tables) _ _
                      (Triple-attempt _
                        (create_link-Ends p _ (λ x e f g. request p found fits x e f g)))
                      (λ r.
                        Triple-Reads (Outcome bsa_id) _
                          (connection_added-Reads date_of cookie parent r)))))

    Found-Ends :
        (r : Result Profile)
        → Found (find (λ q. q.bsa_id == bsa_id) T.profiles) r
        → Triple Start (connect_found date_of cookie parent r) (Ends bsa_id)
    unfolding connect_found
    Found-Ends (err e) f = Reads-Ends bsa_id _ (connections_of-Reads date_of cookie parent _ _)
    Found-Ends (ok p) f = elim (Option-cases (youth_refusal p)) [
      | inl q ↦ rw (q, connect_found) (requested-Ends p f q)
      | inr (m, q) ↦
          rw (q, connect_found)
            (Reads-Ends bsa_id _ (connections_of-Reads date_of cookie parent m ""))
    ]

    looked_up-Ends :
        Triple Start
          (attempt (get_profile_by_bsa_id bsa_id) >>= connect_found date_of cookie parent)
          (Ends bsa_id)
    unfolding get_profile_by_bsa_id
    looked_up-Ends =
        Triple-bind (λ r w. Start w × Found (find (λ q. q.bsa_id == bsa_id) T.profiles) r) _ _
          (Triple-attempt _ (
            Triple-if (bsa_id == "") _ _ (λ q. Triple-fail _ (λ w h. (h, tt)))
              (λ q.
                Triple-query _
                  (λ w h. (
                    h,
                    subst
                        (λ t.
                          Found (find (λ q. q.bsa_id == bsa_id) T.profiles)
                            (first (find (λ q. q.bsa_id == bsa_id) t.profiles) profile_not_found))
                        (sym h) (first-Found _ _),
                  ))
                  (λ w h. (h, tt)))))
          (λ r. Triple-given _ (Found-Ends r))

  parent-Ends :
      (bsa_id : String) (u : User) (r : Result Profile)
      → user_of cookie T ≡ some u
      → Found (find (has_user u.id) T.profiles) r
      → Triple Start (connect_parent date_of cookie bsa_id r) (Ends bsa_id)
  unfolding connect_parent
  parent-Ends bsa_id u (err e) k f =
      Reads-Ends bsa_id _ (render_page-Reads date_of cookie [] false _ _)
  parent-Ends bsa_id u (ok parent) k f = looked_up-Ends bsa_id u parent k f

  signed_in-Ends :
      (field : String)
      → Triple Start (add_connection date_of cookie field) (Ends (trim_space field))
  unfolding add_connection get_profile_by_user_id
  signed_in-Ends field =
      Triple-signed_in T cookie _ _ (λ w h. inl h)
        (λ u k.
          Triple-if (trim_space field == "") _ _
            (λ q. Reads-Ends (trim_space field) _ (render_page-Reads date_of cookie [] false _ _))
            (λ q.
              Triple-bind (λ r w. Start w × Found (find (has_user u.id) T.profiles) r) _ _
                (Triple-attempt _ (
                  Triple-query _
                    (λ w h. (
                      h,
                      subst
                          (λ t.
                            Found (find (has_user u.id) T.profiles)
                              (first (find (has_user u.id) t.profiles) profile_not_found))
                          (sym h) (first-Found _ _),
                    ))
                    (λ w h. (h, tt))))
                (λ r. Triple-given _ (parent-Ends (trim_space field) u r k))))

-- AddConnection changes nothing, or adds one link, pending, from the profile of the signed-in user
-- to the profile with the entered BSA id, which is that of a youth without an account.
pub add_connection-Outcome :
    (date_of : ℕ → Time) (cookie : Result Session) (field : String) (w : World)
    → Outcome date_of cookie w.tables
        (trim_space field)
        (add_connection date_of cookie field w).1.tables
add_connection-Outcome date_of cookie field w =
    (signed_in-Ends date_of cookie w.tables field).at w refl
