-- ===== src/Storage/Profiles/Counting.antt =====
-- How many rows Create and Update of internal/storage/postgres/profile_repository.go leave.
use scouting_app.Base.{
  ℕ, ◌+◌, ◌≡◌, refl, ap, ◌∙◌, Bool, not, ◌&&◌, ◌||◌, List, [], ◌∷◌, length, ◌==◌, inl, inr,
  Bool-cases, arith, any, update_where, length-append,
}
use scouting_app.Profile.{Profile}
use scouting_app.Db.{World, ok}
use scouting_app.Db.Keeps.{Keeps, Keeps-statement}
use scouting_app.Db.Ensures.{
  Ensures, Ensures-pure, Ensures-statement, Ensures-if, Ensures-bind, Ensures-new_uuid,
}
use scouting_app.Storage.Profiles.{
  truncate_micro, bsa_id_taken, user_exists, insert_profile, create_profile, write_profile,
  update_profile,
}

length-update_where :
    {A : Type 0} (p : A → Bool) (f : A → A) (rows : List A)
    → length (update_where p f rows) ≡ length rows
length-update_where p f [] = refl
length-update_where p f (x ∷ rows) = omega (arith, length-update_where p f rows)

length-insert_profile :
    (p : Profile) (w : World) (q : Profile)
    → (insert_profile p w).0 ≡ ok q
    → length (insert_profile p w).1.profiles ≡ length w.profiles + 1
unfolding insert_profile
length-insert_profile p w q e =
    elim (Bool-cases (
      any (λ q. q.id == p.id) w.profiles
      || (bsa_id_taken p w.profiles || not (user_exists w.users p.user_id)))) [
        | inl b ↦ ground arith
        | inr b ↦ rw b (length-append w.profiles _)
      ]

length-write_profile :
    (p : Profile) (w : World) → length (write_profile p w).1.profiles ≡ length w.profiles
unfolding write_profile
length-write_profile p w =
    elim (Bool-cases (
      any (λ q. q.id == p.id) w.profiles
      && (bsa_id_taken p w.profiles || not (user_exists w.users p.user_id)))) [
        | inl b ↦ rw b refl
        | inr b ↦ rw b (
            length-update_where (λ q. q.id == p.id)
              (λ q. record p { created_at = q.created_at; updated_at = truncate_micro w.now })
              w.profiles)
      ]

-- A successful Create adds one row.
pub create_profile-length :
    (n : ℕ) (p : Profile)
    → Ensures (λ t. length t.profiles ≡ n) (create_profile p) (λ q t. length t.profiles ≡ n + 1)
unfolding create_profile
create_profile-length n p =
    Ensures-bind (λ id t. length t.profiles ≡ n) _ _
      (Ensures-if (p.id == "") _ _ (λ q. Ensures-new_uuid) (λ q. Ensures-pure _ (λ t h. h)))
      (λ id.
        Ensures-statement _
          (λ w a h e. length-insert_profile (record p { id = id }) w a e ∙ ap (λ m. m + 1) h))

pub update_profile-length :
    (n : ℕ) (p : Profile) → Keeps (λ t. length t.profiles ≡ n) (update_profile p)
unfolding update_profile
update_profile-length n p = Keeps-statement _ (λ w h. length-write_profile p w ∙ h)
