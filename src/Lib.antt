-- ===== src/Lib.antt =====
-- SangamDrive's API server (apps/api): several Google Drives behind one dashboard.
--
-- The parts and how they interact. A request comes in with a session cookie; internal/auth resolves it
-- to a user over the tables of internal/store/sqlite. internal/files fans a listing out over the user's
-- connected accounts: internal/accounts gives it the accounts and their access tokens, which it gets
-- from the cache of internal/google/tokens.go, and internal/google/drive.go sends the requests, with
-- retries, and turns failures into the errors of internal/apperr. A sign-in (internal/server) links an
-- account: it writes a row with the sealed refresh token. Paths below are under apps/api.
--
-- Which file models what:
--   Apperr        internal/apperr/apperr.go: Error, its constructors, WithCause, WithDetail, From,
--                 IsRetryable; tagged and compact of the services.
--   Config        internal/config/config.go: Load, with str, csv, keyVal, requireAbsURL and the others.
--   Cryptobox     internal/cryptobox/cryptobox.go: New, Seal, Open, SignHMAC, VerifyHMAC, HashToken; and
--                 SealRefreshToken and OpenRefreshToken of internal/auth/auth.go.
--   Google/Errors internal/google/errors.go: mapAPIError by its two switches, mapTransportError;
--                 parseRetryAfter in RetryAfter.
--   Google/Drive  internal/google/drive.go: call with its loop of attempts, backoffFor, sleepCtx and
--                 decodeInto; About and the quota in Google/About.
--   Google/Oauth  internal/google/oauth.go: AuthCodeURL, Exchange, Refresh, Profile and Revoke; the
--                 scopes in Google/Identity, and mapOAuthError in Google/OauthErrors.
--   Google/Tokens internal/google/tokens.go: TokenManager with AccessToken, cached and Forget.
--   Google/Query, Google/Paths, Google/File, Google/FileListing
--                 internal/google/files.go: buildListQuery, escapeQueryValue, ResolvePath, toFile,
--                 ListFiles.
--   Google/Requests
--                 internal/google/files.go: the requests of GetFile, CreateFolder, CopyFile, UpdateFile
--                 and DeleteFile.
--   Store         internal/store/store.go: the records.
--   Sqlite        internal/store/sqlite/sqlite.go with migrations/0001_init.sql: one function for each
--                 statement, over four lists of rows (Sqlite/Tables). Sqlite/Commands runs any sequence
--                 of the writing ones; Sqlite/Maps is what they do to four maps, and Sqlite/Refinement
--                 relates the two; Sqlite/Times is how stored times compare; Sqlite/Scan is the
--                 columns that are bound and scanned; Sqlite/Migrations is Migrate.
--   Accounts      internal/accounts/service.go: AccessTokenFor, NoteFailure, Disconnect, Connected; with
--                 Listing for List, Summary for Summarise, Order for Reorder. Wired fills the interface
--                 of the service with the models of the store and of the token manager.
--   Auth          internal/auth/auth.go (Sessions, Cookies) and internal/auth/state.go (SignIn, Next).
--   Files         internal/files: Service with FanOut for List and Change for CreateFolder, Update and
--                 Delete; Cursor, Sort, View and Names.
--   Httpx         internal/httpx: the envelope, ErrorHandler, Recover, RequestID, CORS, SecureHeaders and
--                 the key of RateLimit.
--   Server        internal/server/routes_auth.go: handleAuthStart (Start), handleAuthCallback (Callback, its ends in
--                 Callback/Home),
--                 completeOAuth (SignIn), upsertAccount (Linking); internal/server/middleware_auth.go
--                 (Guard); internal/server/routes_files.go (FileRoutes); routes_accounts.go
--                 (AccountRoutes); routes_meta.go (Meta); internal/server/server.go (Routes).
--   Startup       cmd/server/main.go: run up to the services, and pruneSessions.
--   Base          lists over native numbers, Go's strings, int64, results, calls in a world, sorting.
--   Samples and the modules named Examples hold runs at concrete inputs.
--
-- How state is modelled. A call is a function from a world to a result and a world (Base/Act): a failing
-- call ends its caller, and what was changed before stays changed. The world is a parameter wherever the
-- code only passes through it, so that what is proved holds for every behaviour of the network, of other
-- services and of the clock. Code that is not the server's own comes as a record of operations: the HTTP
-- client, timers and random numbers (Google.Drive.Net), JSON and base64 (Codec, Signer), strconv and
-- time parsing (Parsers, Platform, TimeTexts), hashes and HMAC (Crypto, Signer), AES-GCM (Primitives), the OAuth
-- library (Client, Outside), the matching of paths (Router), the scripts and the failures of a database
-- (Scripts, Faults). What a theorem needs of them is a hypothesis by name: Counts, Recovering, Notes,
-- RoundTrips, TakesKeys, Groups, Parses.
--
-- Concurrency. The goroutines of an errgroup write disjoint slots; they run here one after the other, in
-- an order that is a list of tasks (a schedule), and theorems hold for every schedule that has a task for
-- each slot, which repeats tasks at will. What other callers do to the token manager between the two
-- looks of AccessToken is a function that is a parameter; a caller leads the flight of its account or
-- joins one, whose leader's refresh token is a parameter too.
--
-- Bounds and fuel. The loop of call runs on the number of attempts, four or one, and the walk of
-- ResolvePath on its twenty levels: both are the source's own bounds, so no run is cut short by the
-- model. Times are nanoseconds since 1970 as naturals, and the zero time is 0. A stored time is read
-- back up to the year 9999, the last one that its text format has. int64 wraps around in Summarise.
-- Texts are sequences of code points; lengths are in bytes, as in Go.
--
-- Not modelled: the log and the access log, the HTTP framework with its limiter, the listener and the
-- shutdown; opening the database, and failures of the database other than those of the schema and of the
-- migrations; AES-GCM, HMAC and hashes; contexts with their timeouts, apart from
-- how a cancelled request is reported; what happens to the token manager while a flight waits for Google;
-- strings.ToLower, which is a parameter; the web application.
pub mod Base
pub mod Samples
pub mod Apperr
pub mod Config
pub mod Cryptobox
pub mod Httpx
pub mod Google
pub mod Store
pub mod Sqlite
pub mod Accounts
pub mod Auth
pub mod Files
pub mod Server
pub mod Startup
