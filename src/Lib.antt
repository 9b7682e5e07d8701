-- ===== src/Lib.antt =====
-- Postara, an IMAP-to-HTTP gateway: its HTTP API and the services behind it.
--
-- The program keeps users with their sessions and API keys, mailboxes with encrypted credentials,
-- limits on calls and on failed logins, and an audit log that is fed through an outbox. A request
-- is limited (`RateLimit`, `AuthProtection`), authenticated (`Users` by `Security`), served by a
-- service on mailboxes (`Accounts` by `Crypto`), and leaves an audit event (`Audit`), which goes
-- into the outbox in the same transaction and is delivered to the log by a dispatcher.
--
-- The parts, and the code each models:
--   Exec, Errors, Dict, Text     methods that change an object and may raise; the exceptions;
--                                Python's dict and str
--   RateLimit                    src/postara/rate_limit.py; Sliding is the specification
--   AuthProtection               src/postara/auth_protection.py: Store is the interface of the two
--                                stores, Store.Memory and Store.Sql fill it, Limiter is
--                                AuthAttemptLimiter over any store
--   Audit                        src/postara/audit.py
--   Audit.Outbox                 the outbox and dispatch_audit_outbox of src/postara/repositories.py
--   Security, Crypto             src/postara/security.py, src/postara/crypto.py
--   Users                        UserService of src/postara/users.py; Tables and Repository are
--                                RepositoryUserService over the tables of src/postara/models.py
--   Accounts                     the data of src/postara/accounts.py; Memory is AccountService,
--                                Tables and Repository are AccountRepository of
--                                src/postara/repositories.py over the tables of
--                                src/postara/models.py, Service is RepositoryAccountService
--   Providers                    src/postara/providers/base.py; Gmail is GmailAdapter over any mail
--                                library, Registry is ProviderRegistry, Decimal is Python's int
--                                and str as the adapter uses them
--   OAuth                        src/postara/oauth.py: the codec of the state, and Google with
--                                GoogleOAuthClient over any HTTP library
--   Executor                     src/postara/imap_executor.py, its threads as a step relation
--   Api                          src/postara/api.py: a World of tables, limits and mail, Access with
--                                the guards, and the routes in Auth, Owner, Mailboxes,
--                                Verification, Keys, OAuth and Messages; a route is a function of one
--                                request and of what that request reads of clock and draws
--   Mailbox                      src/postara/mailbox.py, which fills Api.MailboxRuntime
--   Tests                        runs on concrete values
--
-- A function of the model has the name of the method it models. State is passed explicitly: a
-- method is a function from the state to an outcome and the next state, and what was written
-- before an exception stays written; `transaction` is `async with session.begin()`, which takes it
-- back. The clock, random draws, salts and seeds are arguments of the call that reads them. Times
-- are natural numbers, in seconds (for rate_limit.py in any unit); a subtraction of the code stands
-- as an addition on the other side where it could go below zero. Every loop of the modelled code
-- runs over a list or a number. Fuel stands in two places: the digits of a number n are printed with
-- fuel n + 1, which int-show shows to be enough, and the client that follows cursors in
-- Providers.Gmail.Pages has as much fuel as its theorem asks for.
--
-- Parameters, for code that is not in the repository: hashlib, hmac, base64, argon2 and Fernet
-- (`Security.Library`, with the round trips that they document), ipaddress
-- (`AuthProtection.Network`), the Unicode tables and datetime's ISO text (`Text.Unicode`,
-- `Audit.Python`), imap_tools (`Providers.MailBox`), strftime, parsedate and int beyond ASCII
-- (`Providers.Gmail.Interpreter`), json and base64 for the state (`OAuth.Codecs`), httpx
-- (`OAuth.Google.Http`), Turnstile's answer and urllib's quote (`Api.App`), a provider's
-- answer to a refresh token. `Api.MailboxRuntime` is the interface that Mailbox
-- fills over any connection (`Mailbox.MailLibrary`).
--
-- Not modelled: detailed_health, owner_list_audit_events, static pages, OpenAPI, CORS and the
-- validation of payloads in src/postara/api.py; configuration, database set-up, migrations, front
-- end and scripts. A database has one transaction at a time here, and a request is served to its
-- end before the next; two that run at once are not interleaved. `Executor` alone has threads, in
-- any order of their steps; that a job ends is the mail library's, by its timeout.
mod Prelude
pub mod Errors
pub mod Exec
pub mod Dict
pub mod RateLimit
pub mod Text
pub mod AuthProtection
pub mod Audit
pub mod Security
pub mod Crypto
pub mod Users
pub mod Accounts
pub mod Providers
pub mod OAuth
pub mod Executor
pub mod Api
pub mod Mailbox
mod Tests
