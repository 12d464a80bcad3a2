-- ===== src/Lib.antt =====
-- A multi-tenant backend for the WhatsApp Cloud API: an HTTP API over a database (SQLAlchemy), Redis
-- and Meta's HTTP API. Requests are authenticated by API keys; messages and campaigns are sent through
-- the client of the Cloud API under a rate limit; Meta reports back through webhooks, which move the
-- messages, the recipients of campaigns and the campaigns' counters forward.
--
-- The parts, and the files that model them:
--   Base        lists, texts, tests on numbers, and actions: a call over a state that returns or
--               raises, where what was written before a raise stays written
--   Errors      src/exceptions.py, and the exceptions of Python and the packages that come through
--   Json        JSON values with Python's `.get`, truth, `or`, iteration and `str`
--   Models      src/models: a record for each table
--   Store       the session: the tables, and the messages added and not flushed yet; Sessions for
--               the commits and rollbacks of src/database.py
--   Utils       src/utils: phone numbers, pagination, retries, validators
--   Client      src/services/whatsapp_client.py: requests and paging; Bodies for what is
--               posted, Responses for the error classes, Listing on the pages
--   RateLimiter src/services/rate_limiter.py: the two counters in Redis
--   Tenants     src/services/tenant_service.py: tenants, their quota and their tokens; Seed for
--               scripts/seed_data.py
--   Auth        src/auth.py and the key endpoints of src/api/v1/admin.py
--   Webhooks    src/services/webhook_service.py and src/api/v1/webhooks.py: Signature for the
--               signed body, Events for storing events and for messages, Status for status reports,
--               Processing for the handlers of an event and the endpoint
--   Campaigns   src/services/campaign_service.py: Upload for the CSV file, Lifecycle and Idle for
--               the states
--   Messages    src/services/message_service.py: sends over a `World` of the session, Redis and the
--               HTTP client; Components for the components of a template
--   Templates   src/services/template_service.py: the sync with Meta; Entries is what it reads of a
--               template, Cache the specification, the templates as a map, and Refinement
--               the theorem that the sync implements it, by Sync for the loop and Inserts for
--               the flush; Resync and Duplicates for listings of templates that are known, or new
--               and named twice
--   Tasks       src/tasks: Dispatch for send_campaign_task.py and Delivery for send_message_task.py;
--               Works is any sequence of deliveries, and Drain a campaign from its dispatch on
--   Api         src/api/v1: Sending and Reading for whatsapp.py, Bulk for campaigns.py, and Manage for
--               templates.py, tenants.py, admin.py and health.py
--   Logger      src/logger.py: the masking of log records; Tokens and Values are on what is left after
--               it, and Sinks on where a record goes
--   Config      src/config.py: the values derived from the settings
--   App         src/main.py: the middleware and the exception handlers, on which Responses is;
--               Connections is the pool of src/redis_client.py with the start and end of the process
--   Schemas     src/schemas: the validation of request bodies; Slug for the pattern of a slug
--   Migrations  alembic/versions: Tables, Events and Initial for the first migration, ApiKeys for the
--               second; Orm for the tables that src/models declares; Frame says what a migration
--               leaves alone
--   System      the parts together: Phones is any run of requests, webhooks and tasks on one database;
--               Dialable says which phones it holds, and the others are the parts' share in that
--   Examples    concrete data, and each theorem applied to it
--
-- Base/Keeps has the rules for what an action keeps, and a module Kept the rule for each operation of
-- its component, over any predicate on the database that its writes keep.
--
-- A function keeps its Python name, `_infer_tenant_id` without the underscore, but an endpoint that
-- would share its service's name: `post_text`, `post_template`, `post_recipients`, `get_recipients`,
-- `mint_api_key` and `post_revoke`. A method of a service is an action over the session, `Db`. The
-- tables keep ids and times as numbers; `now` of the server and of the process is one clock. Rows are
-- found by id and written back whole.
--
-- Code of packages is a parameter: `PhoneLib` (phonenumbers), `Http` (httpx, with random and sleep),
-- `Redis`, `Fernet` (cryptography), the SHA-256 and HMAC digests as functions of texts, `urlparse`,
-- what `csv.DictReader` reads and raises, the collation of the database, and `describe` for `str(exc)`. What a
-- theorem needs of a package is a record of laws, as `IsLawful` and `IsCounter`, and has an instance
-- in Examples.
--
-- The only fuel is that of the paging loop of `get_templates`, which Meta may extend for ever: one
-- round for each page is enough, by the theorem on it. The retry loop is recursion on the attempts
-- that are left.
--
-- A task runs in a session of its own, which is committed or rolled back at its end. Celery may
-- deliver a task any number of times: the theorems on deliveries are about any sequence of them,
-- one after the other. A request runs in a session that `get_session` yields, and stores what it
-- committed.
--
-- A log text is a list of code points; its patterns run on an engine that backtracks as `re` does, in
-- Base/Regex. An operation of a migration has no result where PostgreSQL refuses it.
--
-- Not modelled: sessions that interleave. The worker of docker-compose.yml runs four tasks at once,
-- and the counters of a campaign and of a tenant are read and written back without a lock, so that
-- increments can be lost there, which no theorem here excludes. Nor Celery, FastAPI, Sentry,
-- configuration from the environment and the other scripts. Requests are typed already, and a row
-- stands for its response model. A flush can fail only by a message or a template that the driver
-- refuses, or by a slug or a template's key that is taken; a lost connection and the lengths of
-- text columns are left out. Rows that a loop assigned before it raised are not kept, since the
-- caller rolls back. Letters change case in ASCII only, and a JSON number is whole.
pub mod Base
pub mod Errors
pub mod Json
pub mod Models
pub mod Store
pub mod Utils
pub mod Client
pub mod RateLimiter
pub mod Tenants
pub mod Auth
pub mod Webhooks
pub mod Campaigns
pub mod Messages
pub mod Tasks
pub mod Templates
pub mod Api
pub mod System
pub mod Examples
pub mod Logger
pub mod Config
pub mod App
pub mod Schemas
pub mod Migrations
