-- ===== src/Lib.antt =====
-- A model of the backend of the registrar's office system (backend/app), which receives students'
-- requests, routes each to an employee, and watches the time that the office has to answer.
--
-- The parts of the program and the modules that model them:
--
-- * backend/app/services/sla_calendar.py is Calendar: deadlines and elapsed time on working days.
--   Calendar/Civil has Python's dates, Calendar/Worked the specification, a clock that only runs on
--   working days.
-- * backend/app/models and services/labels.py are Models: the rows, with the columns that the
--   services read or write, and the tables (Models/Db).
-- * backend/app/services/catalog_service.py is Catalog: request types, service types and the files of
--   automatic answers.
-- * backend/app/services/routing_service.py is Routing: who receives a request.
-- * backend/app/services/request_service.py is Tracking (generate_tracking_no), Filing
--   (create_request) and Workflow (the other operations and the SLA clock in _apply_status).
-- * backend/app/services/sla_service.py is Sla: the periodic sweep.
-- * backend/app/services/outbox_service.py is Outbox: queued emails and webhooks, and their delivery.
-- * backend/app/core/security.py, with `issue_tokens` of services/auth_service.py and `refresh` of
--   api/v1/auth.py, is Sessions. Redis is a parameter: an interface of reads and writes with
--   their documented effect on later reads (Redis), which a list of entries meets (Redis/Memory).
-- * The other endpoints of api/v1/auth.py are Logins: Logins/Steps (logging in, in one or two
--   steps) and Logins/Settings (the user's password, second factor and logout); core/totp.py is Totp.
-- * services/api_client_service.py, api/v1/api_clients.py and the token endpoint of
--   api/v1/integration.py are Clients. sync_student_from_profile of services/auth_service.py is
--   Students: the student, group and faculty of a profile.
-- * backend/app/services/file_service.py is Files: the checks of an upload, the names under which it is
--   stored, and the way back from a stored path.
-- * backend/app/api/v1/requests.py is Actions (what a student does), Thread (messages and files),
--   Endpoints (the handlers of one request; Endpoints/Answer has the final answer) and Listing. What
--   they write for others is Work: audit_service, notification_service, events and email_templates of
--   backend/app/services. What they show is Views: backend/app/schemas/request.py.
-- * backend/app/services/report_service.py is Reports, with Reports/Kpi, where api/v1/reports.py is too;
--   services/stats_service.py is Stats.
-- * Lifecycle has the steps by which the services change the row of a request, and what holds of any
--   sequence of them.
--
-- create_request takes the service from Catalog, the handler from Routing, the number from Tracking
-- and the deadline from Calendar; Workflow and Sla change the row that it has stored. The endpoints
-- wrap Filing and Workflow: they check the role, look the row up, store what comes back, and add to
-- the outbox that Outbox delivers.
--
-- How the code is written in the model. A function has the name of its source function, without a
-- leading underscore. A row is a record, and a table the list of its rows by ascending key; a query
-- is a filter over that list. A relationship that is loaded with a row is a field of it. A call that
-- raises an HTTPException returns its code and its message (Http); the transaction is rolled back
-- then, so the model has no other state after a failed call, but for the disk, which keeps the files
-- that were written, and Redis, whose keys a failed login changes. The clock, the year and the keys that
-- the database gives are arguments. Moments are microseconds since 0001-01-01 UTC, which is the
-- resolution of Python's datetime, and seconds in Sessions, Logins and Totp; the time zone is a fixed offset from UTC, as that of the default
-- zone Asia/Tashkent is for all dates of the system. A text is the list of its code points.
--
-- Loops. add_working_time has the 3660 rounds of the source. The `while` of working_time_between
-- runs on fuel for one round per local date and one more test, which is proved to be enough. So does
-- the search of _upsert_faculty for a free code, for two rounds more than there are faculties.
--
-- Not modelled: the framework with its parsing and checking of parameters, hashing and signing, the
-- endpoints for users, directories and the requests of partners, settings and start-up, which need the web
-- framework, cryptography and the disk; the frontend; migrations; and deployment.
pub mod Actions
pub mod Base
pub mod Http
pub mod Calendar
pub mod Listing
pub mod Models
pub mod Catalog
pub mod Reports
pub mod Routing
pub mod Stats
pub mod Students
pub mod Thread
pub mod Totp
pub mod Tracking
pub mod Views
pub mod Work
pub mod Workflow
pub mod Files
pub mod Clients
pub mod Endpoints
pub mod Filing
pub mod Sla
pub mod Lifecycle
pub mod Logins
pub mod Outbox
pub mod Redis
pub mod Sessions
pub mod Samples
