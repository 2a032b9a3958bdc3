-- ===== src/Lib.antt =====
-- The sign-on service of the lab: its accounts, its tokens and its signing keys.
--
-- The service (src/temis_sso) registers users, logs them in, issues access tokens signed by a ring
-- of rotating keys and refresh tokens that are used once, and lets administrators approve and
-- suspend accounts and change their roles.
--
-- Base: helpers. Lists of rows (Base.Lists), exceptions and the state and error monad that the
--   Python methods are written in (Base.Effects), texts (Base.Text), JSON values (Base.Json).
-- Jose: JSON Web Tokens, a record of operations and laws that stands for the package PyJWT with
--   the cryptography package. Verification is a function of the token, the key, the checks and the
--   time.
-- KeyRing: src/temis_sso/keyring.py. A ring is the list of records of keyring.json with the key files
--   as functions from a kid; publish, activate and retire are steps (run_events is a sequence of
--   them with its times, and KeyRing.Runs is about them). KeyRing.Storage is how the file is saved, step by step.
-- Keygen: src/temis_sso/keygen.py, the two key files as a function of their paths.
-- Http: the HTTP client httpx, whose answers are a function of the number of requests so far.
-- Persistence: src/temis_sso/persistence.py. A database is a list of rows for each table;
--   session_scope rolls back where its body raises.
-- Tokens: src/temis_sso/tokens.py. Access (RingTokenCodec) and Refresh (issue_refresh,
--   rotate_refresh, revoke_refresh).
-- Application.Auth and Application.Admin: src/temis_sso/application/auth.py and admin.py, with an
--   operation for each function. `perform` runs one of the four operations of an administrator.
-- Api.Tokens: src/temis_sso/api/auth.py, the bundles of tokens and the endpoints status, refresh
--   and logout.
-- OauthState, ClientPolicy and FakeProvider: src/temis_sso/oauth_state.py, client_policy.py and
--   fake_provider.py. Redis is a list of entries with their expiry, and a value is the dictionary
--   of texts that its JSON stands for.
-- Api.Oauth: src/temis_sso/api/oauth.py, the authorization code flow with PKCE. A state is the
--   database with Redis.
-- Api.Accounts, Api.Users and Api.Admin: the handlers of src/temis_sso/api/auth.py, users.py and
--   admin.py, with the checks of their input and their statuses.
-- Bff: src/temis_bff, the backend for the browser. Security (return paths and the check against
--   forged requests), Sessions, Oauth (logins in progress) and App (the handlers).
-- ResourceApi: src/resource_api. Verifier (auth.py) keeps its caches as a state with the number of
--   readings of its clock; Verifier.Authenticate is its main method; Reports is app.py.
-- Observability: src/temis_sso/observability.py, the redaction of log records (Redaction) and the
--   counters (Metrics, Metrics.Render).
--   Middleware is `observe`, and Bootstrap the stack of middlewares that src/temis_sso/main.py builds,
--   with bootstrap.py and api/system.py.
-- ExternalIdp: src/temis_sso/external_idp, the flows in progress (security.py), the sessions, the
--   registry and the links of accounts (sessions.py, registry.py, external_accounts.py), the adapters
--   Naver, Kakao and Google, the key sets of a provider (Jwks) and the callback service (Callback).
-- Api.Google, Api.Naver and Api.Kakao: the handlers of src/temis_sso/api/oauth.py, naver_oauth.py and
--   kakao_oauth.py for external accounts. Api.Identities is what the last two do alike: a state is
--   the database with the flows and the number of requests that were sent.
-- Tests: a small database, ring and token format, and the theorems applied to them.
--
-- Times are numbers of microseconds where the code has datetimes, and of the code's own unit in
-- ExternalIdp and ResourceApi. Every reading of the clock is an argument, as is every random value;
-- the verifier of ResourceApi counts its readings. The SHA-256 and base64 of the standard library,
-- argon2, PyJWT, the URL functions and the answers to HTTP requests are parameters. The only
-- fuel is that of the decimal digits in Base.Decimal, one more than the number: the rest loops over
-- lists and JSON values. Sessions are run one after the other, as
-- the row locks of the statements make them. Emails are lowered and stripped by their ASCII
-- characters.
--
-- Not modelled: the storage engine, the lock of the key directory, the routing of HTTP, the settings
-- and the command lines.
pub mod Base
pub mod Jose
pub mod Keygen
pub mod KeyRing
pub mod Persistence
pub mod Tokens
pub mod OauthState
pub mod ClientPolicy
pub mod FakeProvider
pub mod Application
pub mod Api
pub mod Bff
pub mod Bootstrap
pub mod Http
pub mod ResourceApi
pub mod Observability
pub mod ExternalIdp
mod Tests
