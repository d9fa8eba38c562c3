-- ===== src/Lib.antt =====
-- A model of the scouting app's server: a Go program with a PostgreSQL database that keeps the
-- profiles of a troop, its events, who takes part, who drives, cooks and sleeps where, and that
-- follows the roster of Scoutbook.
--
-- The parts and how they interact. The handlers of internal/api call the services of
-- internal/domain, which call the repositories of internal/storage/postgres; these send SQL to the
-- database. Here a call is a function of the world (Db: the tables, and what the connection, the
-- clock and the random numbers will do) that returns a result or an error and the next world.
--   Db            database/sql as the repositories use it, newUUID and time.Now. A statement works
--                 as a whole or fails; `fault` says which statements fail and is arbitrary in the
--                 theorems. A transaction that fails leaves the tables as they were. Db/Keeps,
--                 Db/Ensures, Db/Errors, Db/Triples and Db/Runs are the rules by which the proofs go.
--   Profile       internal/domain/profile, user, rbac and parentyouthlink: the records.
--   Event         internal/domain/event/event.go, tent.go, cooking_patrol.go: the records, and the
--                 rows of the events' tables.
--   Tenting       internal/domain/event/tent_rules.go: SiblingPairs, AgeWholeYears, ValidateTent and
--                 BlockingViolations. Tenting/Soundness, Tenting/Age and Tenting/Siblings describe
--                 them without the code's loops.
--   Naming        TentNextName, TentNumber, CookingPatrolNextName, CookingPatrolNumber and the search
--                 for the highest number.
--   Storage       internal/storage/postgres, one module for each group of tables: Profiles
--                 (ProfileRepository, UserRepository), Rbac (RBACRepository), Otps
--                 (OTPCodeRepository), Links (ParentYouthLinkRepository), and for EventRepository
--                 Events, Attendance, Responsibilities, Patrols and Tents. A method Create of a
--                 repository is create_profile, create_event and so on; other methods keep their
--                 names. The foreign keys, CHECK constraints and unique indexes of migrations/ are
--                 tests that refuse a statement.
--   TentService   internal/domain/event/tent_service.go.
--   CookingService  internal/domain/event/cooking_service.go.
--   Reconcile     internal/domain/rbac/reconcile.go.
--   Auth          internal/domain/auth/auth.go: the cookie store and bcrypt are arguments.
--   Sync          internal/domain/sync/service.go and types.go. The status of a report is a text, as
--                 it is there. Sync/Totals follows Sync through the repositories and ReconcileRoles.
--   OneTimeCode   internal/domain/otpcode/otpcode.go.
--   Pages         the data of the pages of families, of the onboarding form and of the settings.
--   AppConfig     internal/domain/appconfig and appconfig_repository.go: the settings.
--   Views         internal/api/events.go: what the handlers show, as data for the templates.
--   Api           internal/api/middleware.go and the handlers of internal/api/events.go that change
--                 something: SignUp, Drivers (also the responsibilities), Cooking, Tents, EventForms,
--                 the sections that they answer with (Sections), and their routes of main.go
--                 (Routes). A handler's result is the list of what it writes to the response.
--                 Registration, Family, Onboarding, Settings and Admin are registration.go,
--                 family_connections.go, onboarding.go, admin_settings.go and admin.go (its
--                 permissions only), whose cookies and e-mails are written to the result, too.
--                 Api/Keeping and Api/Consistency, Api/Access and Api/Managing hold the proofs.
--   Text, Calendar, Base  strings, strconv, fmt and time as far as the code uses them; lists, options
--                 and numbers. Examples holds the rows that the tests use.
--
-- Choices. A moment is a number of nanoseconds since Go's zero time; a time whose date matters has
-- its year, month and day too. Go's int is 64 bits wide where it may overflow (Text/Decimal, the
-- numbers in names) and an unbounded integer for ages, gaps, seat belts and cents. A Go map that is
-- used as a set is the list of its keys; where the order of a range over a map can show, the order is
-- an argument (MapRange, MemberRange). All loops are structural recursion, so there is no fuel. Calls
-- finish one after the other: what happens between two statements of one call when others interleave
-- is not modelled. Log lines and the texts that wrap errors are left out.
--
-- Arguments stand for code outside of the repository: url.QueryEscape, the parsing of floats and
-- of times in forms, the dates of moments, the environment, the cookie store, random draws and
-- the hashers. sort.Slice is a stable
-- sort, and strings.ToLower is that of ASCII.
--
-- Not modelled: the pages that only show something, the handlers for roles,
-- connections, the roster, profiles and syncs, the e-mail and Scoutbook clients, configuration and
-- start-up (cmd), and the list queries of events.
pub mod Auth
pub mod Base
pub mod Text
pub mod Calendar
pub mod Tenting
pub mod Views
pub mod Pages
pub mod AppConfig
pub mod Api
pub mod Naming
pub mod OneTimeCode
pub mod Profile
pub mod Event
pub mod Db
pub mod Storage
pub mod TentService
pub mod CookingService
pub mod Reconcile
pub mod Sync
pub mod Examples
