-- ===== src/Lib.antt =====
-- The account controller: a password vault and a mail sorter behind a login with Google and a
-- master password. The server is under apps/api/src, its tables in prisma/schema.prisma, and the
-- web client under apps/web/src.
--
-- Parts. A request runs a route of a controller. The guard of the route (auth/guards) reads the
-- session and asks the key store, in the memory of the server, for the key that the master
-- password gave when the session was unlocked; the handler calls a service with the user and the
-- key. The services read and write the database through Prisma, encrypt with CryptoService, and
-- reach mailboxes through a provider. All of them are functions on one state, `World`: the
-- database, the key store, the session, the clock, the number of random draws so far, and the
-- calls that moved a message in a mailbox. A result is a value or an error, with the state after
-- it; what was written before an exception stays written, except in a transaction. A run of the
-- server is a sequence of steps: a request of any session, the scheduled scan, time that passes.
-- The web client asks the server through one function, and keeps the master password of a trusted
-- device in the browser, wrapped under a key that only the authenticator can give again.
--
-- Files, and the code that each is about:
--   Common: texts as UTF-16 code units, lists, errors and the monad of the services.
--   Database: Rows (prisma/schema.prisma), Model and Client (the client of Prisma as an interface
--     with laws), ListTable (a table on lists that fills it).
--   Crypto: Aes, Kdf, Service, TokenKey (common/crypto/aes.util.ts, kdf.util.ts,
--     crypto.service.ts, gmail-token-key.service.ts), Encoding (text through UTF-8).
--   World: the state, and the steps that the handlers share.
--   Auth: Session, KeyStore, Guards, Google, Service, WebAuthn, Controller (auth/session.types.ts,
--     unlock-key-store.service.ts, guards and decorators, google-oauth.service.ts,
--     auth.service.ts, webauthn.service.ts, auth.controller.ts).
--   Accounts: Service, Backup, Generator (accounts/accounts.service.ts), Controller
--     (accounts/accounts.controller.ts).
--   Mail: Matcher, Rules (mail/rules/rule-matcher.util.ts, rules.service.ts), Provider, Gmail
--     (mail/providers), Candidates (mail/candidates/candidates.service.ts), EmailAccounts
--     (email-accounts), Controllers (the controllers of these, and notifications).
--   Server: the routes as one function on the state, with the scheduled scan
--     (mail/candidates/scan-scheduler.service.ts), and the states that are reached.
--   Web, over apps/web/src: Api, Crypto, Storage, Browser, Device (lib/api.ts,
--     lib/webauthn-crypto.ts, lib/webauthn-storage.ts, lib/webauthn.ts), Proxy (proxy.ts), Login
--     (app/login/page.tsx), Settings, MailRules, RuleForm, Review, Accounts, Navigation
--     (under app/(app): settings/page.tsx, mail/rules/page.tsx, mail/review/page.tsx, accounts,
--     layout.tsx).
--   Tests: instances of the parameters, and runs at concrete states.
-- A name of the source is written here with underscores: changeMasterPassword is
-- `change_master_password`. Modules below a component hold its proofs.
--
-- Parameters. Node's buffers and ciphers, argon2, google-auth-library, googleapis,
-- @simplewebauthn/server, JSON, the tables of Unicode, `randomInt` and the client of Prisma are
-- records of functions, with the documented behaviour that the code relies on as laws. Ids are
-- drawn with `uuid`, which is asked to be injective where a theorem needs new ids. Of the browser,
-- `fetch`, `crypto.subtle`, IndexedDB and @simplewebauthn/browser are such records too. A browser is
-- its rows in IndexedDB and the server that it talks to, on which a request runs its route.
--
-- Pages. The form of a rule and the login page are step relations over their state, in which React
-- draws the page between two events; the handlers of the other pages are functions on the state of
-- the page and the browser, which run to the answers of their requests.
--
-- Bounds. Every loop is recursion on the list that it runs over, the shuffle on its index, so that
-- no fuel is used. Times are natural numbers of milliseconds; a clock that is set back gives an
-- idle time of 0. The date of a message may be no date, which Prisma refuses. The body that changes
-- an account may bring any column of its row, which the code passes on; the bodies of the other
-- requests have the fields that the services declare, and no other.
--
-- Not modelled: requests that run at the same time (one request runs to its end, and the clock
-- stands still within it), a database or session store that cannot be reached, texts that a
-- column cannot hold, a request of the web client that never arrives, cookies, logging, the modules
-- of NestJS, the scheduler's timer, what the pages draw, the pages that only show what one request
-- gives, and the form that changes an account.
pub mod Common
pub mod Database
pub mod Crypto
pub mod Auth
pub mod World
pub mod Accounts
pub mod Mail
pub mod Server
pub mod Web
mod Tests
