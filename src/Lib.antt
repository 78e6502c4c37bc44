-- ===== src/Lib.antt =====
-- Fixiyi's API (apps/api/src): clients ask for a service at their place, the matching engine finds
-- providers and contacts them in small batches, and sessions say who is calling. The code is
-- TypeScript on NestJS, MongoDB (Mongoose), Redis and BullMQ; this development models its services.
--
-- The parts and their files:
--   Store, Store/*       the collections (a record `Db` of lists, apps/api/src/*/schemas) and the
--                        database driver, the interface `Mongo`, with its documented laws
--   Catalog              catalog/catalog.service.ts: the catalogue of services; Forest is about its
--                        levels, Places about its unique indexes
--   Storage              infrastructure/storage/storage.service.ts: presigned uploads and downloads
--   Media                media/media.service.ts, media-signature.ts, media-metadata.ts: uploads of
--                        requests and conversations, from the signed URL to the scan
--   Companies            companies/company.service.ts: members, invitations, the last owner
--   Verification         verification/verification.service.ts: cases, documents and decisions;
--                        Machine is one case by itself, which Refinement relates to the service
--   Requests             requests/request.service.ts: the life of a request; Evolution, Lifecycle
--                        and History hold its state machine, Ownership its guards, Chain the
--                        references to the catalogue, Paging the list, Races two calls at once,
--                        Attachments the media of a request
--   Providers            providers/provider.service.ts: profiles and the search for a dispatch
--   Matching             matching/: Ranking (ranking.ts), Eligibility (eligibility.service.ts), Loops
--                        and Dispatch (dispatch.service.ts), Service (matching.service.ts)
--   Chat/Contacts        chat/contact-detection/: what is found in a text and how it is masked
--   Chat/Conversations   chat/conversation.service.ts: who may talk, sequence numbers, receipts
--   Chat/Messages        chat/message.service.ts, chat/message-view.ts: sending, editing, reading
--   Auth/Accounts        auth/auth.service.ts: login, refresh, the profile, the role of a provider;
--                        Evolution, Kept and Roles follow the users through every call, Login and
--                        Renewal a session from its login on
--   Auth/Tokens          auth/token/token.service.ts: access and refresh tokens
--   Auth/Age             packages/shared-utils/src/time.ts: the age of a user
--   Auth/Sessions        auth/session/session.service.ts: sessions, devices, refresh tokens
--   Auth/Redis           the commands of Redis, an interface with laws on what a key holds
--   Auth/RateLimit       auth/rate-limit/rate-limit.service.ts: the counter of a window
--   Auth/Codes           auth/otp/otp.service.ts, auth/verification-code.ts: one-time codes
--   Common               lists, tests, errors and the state monad that the parts share
--   Tests                a small database on which the theorems are run
--
-- How the parts meet: the matching service asks Requests for the request and marks it MATCHING,
-- then runs the dispatch; the dispatch reads the request again, asks Eligibility (which asks
-- Providers, Catalog and the verification cases) and Ranking, writes candidates, a batch and the
-- match, and schedules its next run. A conversation is opened for a candidacy; a message is sent
-- while the candidacy is live or contact is unlocked, its text goes through the detection of
-- contact details, its attachments are media that were scanned. All of them share the one `Db`;
-- the auth service runs on a state that holds the `Db`, Redis and the messages that were sent.
--
-- How the code is read. An async method is a function from the state to a result and a state
-- (`Exec`): what was written before a throw stays written. A method runs at one instant `now`, and
-- `fresh` gives the ids of `generateId()`. Where calls of several requests interleave, the round
-- trips to the database are the steps (Requests/Races, Auth/Sessions/Rotation). `doc.save()`
-- writes the modified fields to the document with that id. `create` on a taken unique key is the
-- error `duplicate_key`. Texts that nothing reads and ids are natural numbers, 0 the empty string;
-- a text that is read (a message, a file's name) is the list of its UTF-16 code units. Ids are
-- UUIDv7, so their order is that of the numbers. Instants are milliseconds; the tokens count
-- in seconds, Redis keeps milliseconds and rounds TTL to seconds, and a date of birth is a day. A
-- radius or a distance is a whole number of a unit of which every double is a whole number, `none` is
-- Infinity, and the sum of two radii is the rounded one of `Numbers`; scores are of its type `R`,
-- whose laws hold of IEEE doubles other than NaN. The timestamps that Mongoose adds, the removal of
-- expired sessions by the database, and logging are left out. An event that is pushed to the sockets
-- carries the stored message, in place of the view that each side gets of it.
--
-- Parameters, with what the code relies on as laws: the database (`Mongo`), the machine's numbers
-- (`Numbers`), the job queue (`Platform.enqueue`), Redis and the signing of tokens (`Jwt`);
-- without any law the bucket of the object store (`Bucket`), the engine of regular expressions
-- with the numbering plans (`Scanner`), the geometry (`Geo`: distances by trigonometry, and
-- MongoDB's `$geoWithin`) and the HMAC of a code. Tests holds instances.
--
-- Fuel: the one loop without a bound in the code widens a radius up to a maximum. `widen` runs on
-- `rounds most` = most + 2 steps; each step widens the radius, unless rounding loses it, so
-- that is enough for any start (`Matching/Dispatch/Radius`). An exhausted fuel is the failure `diverges`.
--
-- Not modelled: cookies, the CSRF check and the guards; configuration updates, transport prices;
-- the rewriting of spelled-out numbers; the catalogue's tree and the reads of a provider's
-- dispatches; the controllers and the sockets, which pass calls on; the web, admin and worker
-- applications, and the wiring of the framework.
pub mod Auth
pub mod Catalog
pub mod Chat
pub mod Common
pub mod Companies
pub mod Matching
pub mod Media
pub mod Providers
pub mod Requests
pub mod Storage
pub mod Store
pub mod Tests
pub mod Verification
