-- ===== src/Db/Tests.antt =====
-- A transaction that is rolled back.
use scouting_app.Base.{◌≡◌, refl, []}
use scouting_app.Examples.{camp, world}
use scouting_app.Db.{Db, ok, err, not_a_member, statement, fail, transaction, ◌>>◌, ◌>>=◌}

-- It empties a table and gives up.
abbrev empty_and_fail : Db (Unit {0})
empty_and_fail = statement (λ w. (ok tt, record w.tables { tents = [] })) >> fail not_a_member

gives_up : (transaction empty_and_fail (world camp)).0 ≡ err not_a_member
unfolding ◌>>=◌
gives_up = refl

rolled_back : (transaction empty_and_fail (world camp)).1.tables ≡ camp
unfolding ◌>>=◌
rolled_back = refl
