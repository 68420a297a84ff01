-- ===== src/Lib.antt =====
-- A verification library of the backend of a social network (the Python package in `src/fb`).
--
-- The program is layered: entities (src/fb/domain), use cases (src/fb/application), repositories
-- over SQLAlchemy and PostgreSQL (src/fb/infrastructure/repositories), and endpoints
-- (src/fb/presentation). An endpoint opens a unit of work, makes repositories over its session and
-- calls a use case, which reads and writes through the repositories and commits.
--
-- How the code is modelled
--   * Prelude: names of the libraries, tests on numbers, `take` and `drop`.
--   * Shared/Errors: the exceptions. Shared/Effects: `Effect S A`, a method that changes a state
--     `S` and returns or raises; what was written before a raise stays written.
--   * Shared/EntityId: src/fb/domain/shared/entity_id.py. An identifier is a number. What is taken
--     of libraries is a parameter, `Libraries`: Python's `uuid`, which reads back what it prints,
--     and whether SQLAlchemy's constructors take the keyword `id`. A new identifier is an argument
--     of the operation that generates one, and so is the time of a row.
--   * Shared/Text: `str` by its code points, with `strip`.
--   * Shared/Table: a table is the list of its rows; SELECT, COUNT, EXISTS, DELETE, UPDATE and
--     INSERT are functions on lists. Child modules hold the lemmas: Counting, Existence, Keys
--     (unique constraints), Paging (LIMIT, OFFSET, ORDER BY), Order (several columns, and cursors).
--   * UnitOfWork: src/fb/infrastructure/database/unit_of_work.py. The state has the committed rows,
--     the rows as the session of the repositories sees them, and which session is current;
--     `endpoint` and `committing` are how endpoints and use cases use it.
--   * Post: src/fb/domain/post, src/fb/application/post, and the repositories of posts, likes,
--     reactions, comments and shares. Entities, Tables and one module per repository; Posts, Likes,
--     Reactions, Comments and Shares are the use cases, each first as its repository calls for
--     parsed arguments (`like`), then with the parsing (`like_post`), then as it commits
--     (`like_post_use_case`). Outcomes says what each does, Counters that each keeps Invariant, and
--     Endpoints has the requests as steps on the committed tables; Lists has the list queries.
--   * Friend: src/fb/domain/friend, src/fb/application/friend, friend_repo.py. Requests and
--     Unfriending are the use cases; Outcomes and Acceptance say what each does, Rows and Soundness
--     that each keeps Invariant, Endpoints what is left in the database.
--   * Follow: src/fb/domain/follow, src/fb/application/follow, follow_repo.py, in the same way;
--     Lists is about the paged lists.
--   * Chat: src/fb/domain/chat, src/fb/application/chat, message_repo.py. Cursor has the cursors of
--     src/fb/domain/shared/pagination.py over `Codec`, the library functions they use; Repository
--     has the queries, Messages the use cases; Order and Pages are about the pages of a
--     conversation, Sending and Reading about the writes. The list of a user's conversations is not
--     modelled.
--   * Realtime: src/fb/infrastructure/realtime/connection_manager.py. Connections has the registry
--     and its operations, Dictionary the lookups after writes; Events is about sequences of
--     operations, Online about the users who are online. Which sends succeed is a parameter,
--     `alive`.
--   * Cache: src/fb/infrastructure/cache. KeyValue is a Redis server as a parameter, with the laws of
--     GET, SETEX, DEL and the passing of time; TokenBlacklist, Keys, RedisCache and CacheService are
--     the files of these names. `Json` is the library `json` on the values that are cached, and
--     `works` says whether the calls of Redis succeed.
--   * Auth: src/fb/domain/auth, src/fb/application/auth, user_repo.py, jwt_service.py and
--     src/fb/presentation/dependencies.py. Values has the patterns of addresses and user names,
--     Tokens the claims over the parameters `Jwt` and `Hasher`; Accounts is registration and
--     edit, Sessions login, refresh, logout and the reading of a bearer token. Outcomes and
--     Editing say what the writes do, Registration what a login makes of them, Signing and
--     Revocation what becomes of tokens, Names which user names are accepted. Samples has a
--     server and tokens for tests.
--   * RateLimiter: src/fb/presentation/middleware/rate_limiter.py. Counters is the parameter for
--     Redis' INCR and EXPIRE; Identity tells who asks, Middleware is the rest; Window is about
--     sequences of requests, Bucket about who shares a counter.
--   * Notification: src/fb/domain/notification, src/fb/application/notification,
--     notification_repo.py, and src/fb/presentation/rest/v1/notifications.py. Inbox has the use
--     cases, Service the service that other use cases call, with what it publishes as a value;
--     Endpoints puts the tables beside the cached count.
--   * Media: src/fb/domain/media, src/fb/application/media, media_repo.py, src/fb/domain/post/media.py
--     with its use case, and src/fb/presentation/rest/v1/streaming.py. Uploads and Processing are
--     the use cases, Ranges the reading of a range and of a file; Settled is about how processing
--     ends, Streaming about the bytes that are sent. `FileStorage`, `ImageProcessor` and
--     `VideoProcessor` are parameters.
--   * Feed: src/fb/application/post/get_feed.py, feed_repo.py, src/fb/domain/post/feed_scoring.py and
--     affinity.py. Scores are whole numbers of thousandths of a point in place of floating point
--     numbers; `Exponential` is the parameter for `math.exp`. Members says whose posts are shown,
--     Ranking is about the scores.
--   * Profile: src/fb/domain/profile, src/fb/application/profile and profile_repo.py. Editing has the
--     use cases; Writing and Outcomes are about what is read after a write.
--   * Rest: src/fb/presentation/rest/response.py and error_handlers.py.
--   The modules named Tests apply the theorems to small databases, with the libraries of
--   Shared/Samples.
--
-- Bounds. Most loops are queries on a finite table, which is structural recursion on its rows. The
-- loops of a stream run on fuel and give none where it runs out; they get one unit for every byte
-- that is left and one for the last, empty read, which is enough since every other read takes at
-- least a byte. `digits` (Shared/Decimal) runs on the number itself. Counters are the numbers of the
-- code, of any size; `max(0, n - 1)` is the subtraction of natural numbers. Limits and offsets are
-- natural numbers, so negative ones are left out. Times are numbers of seconds, or of any unit in a
-- table; whether the times of posts have a time zone is an argument where the code subtracts them.
--
-- Not modelled: concurrency (an endpoint runs alone, and so does an operation of the registry of
-- connections, which the code may suspend at its awaits), the web framework, the inside of Redis and
-- of the libraries for images and videos, file storage, publishing and subscribing, logging and
-- metrics, which are input and output or calls of libraries; GraphQL and the schemas of the routes,
-- which pass values on; the column `updated_at` of posts and friends, and what SQLAlchemy does if
-- the code reads a value that the database makes in an update (an update is taken to return); and
-- the search of users, the list of a user's conversations, and the cached feed.
pub mod Prelude
pub mod Shared
pub mod UnitOfWork
pub mod Post
pub mod Friend
pub mod Follow
pub mod Chat
pub mod Realtime
pub mod Notification
pub mod RateLimiter
pub mod Cache
pub mod Auth
pub mod Media
pub mod Feed
pub mod Profile
pub mod Rest
