-- ===== src/Lib.antt =====
-- A verification library for the server of revoked: who may do what in a workspace, who may read
-- what was shared, and who may still act for a person after access was taken away.
--
-- Parts, files and code:
-- Permissions (util/permissions.go, util/scopes.go): the catalogue of permissions (Catalogue) and
-- scopes (Scopes), and the functions between chosen permissions and stored scopes (Permissions).
-- Expand, Surfaces and Sets hold the proofs.
-- Members (cmd/revoked/services/invites.go, cmd/revoked/hooks/workspaceMembers.go,
-- `normalizePermissionGrant` of cmd/revoked/hooks/invites.go): the scopes of a member and of a
-- granter, and the hooks on the rows of members. Grants is about what can be passed on, LastAdmin
-- about the administrator who must stay. The hooks use the catalogue's functions.
-- Access (util/access.go, util/accessregistry.go, cmd/revoked/hooks/preflight.go): the declaration
-- of who may write a collection (Registry), the reasons against a write (Access), and the preflight
-- that tells them (Preflight). Callers says whom a declaration lets write, Declared what all
-- declarations have, Responses what is missed for records that answer a request. Tenancy
-- (cmd/revoked/hooks/tenancy.go) binds a new record to its creator, workspace and identity.
-- Links (cmd/revoked/services/links.go, `IsRequestGrant` of cmd/revoked/services/grants.go): the
-- lifecycle of links and requests (Lifecycle), and the claim of a view as the two statements that
-- it sends to the database (Claims), in any order among readers that run at once.
-- Connections (cmd/revoked/services/connectionControls.go): what happens to the links and requests
-- of a connected tool; Rows is about one row, Transactions about the whole transaction.
-- SignIns (cmd/revoked/services/connectionControls.go, `RecordSignIn` of
-- cmd/revoked/services/oidc.go): a person's sign-in at a service as a state machine, with the
-- generations under which codes were issued (Generation) and the subjects that the service sees
-- (Identity). The service's link is held and released by the functions of Connections.
-- RateLimit (util/ratelimit.go): the sliding window, against a reference that keeps every hit
-- (Reference), and the bound on what a window lets through (Window).
-- Sealed (util/sealedchain.go): the encoding of what is signed (Context), and the list of a
-- person's devices (Chain), with what every accepted entry keeps (Valid), the cap (Live), what there
-- is only one of (Unique) and what stays over time (History).
-- Vault (cmd/revoked/services/sealed.go, cmd/revoked/routes/sealed.go,
-- cmd/revoked/hooks/sealed.go): the keys of workspaces and accounts that devices hand to each other
-- (Handover), the requests that change them (Requests) and runs of those (Runs); records that are
-- sealed (Records), the links that show them (Drawers), the routes that write, open and create them
-- (Sealing), and the reset (Reset). It stands on Sealed, Members and Access. Life specifies what the
-- newest key of a workspace goes through, Epochs, Rotation and Steps follow every request, Removal
-- says what this means after somebody is removed, Covered whom a new key reaches, Writers who gets to
-- write or open a record, Versions what writers with old copies can do, Detached what happens to the
-- links. Forgotten follows the newest keys over a reset, and Lost, Orphans and Cleared the records. A
-- reset by the last person who was handed a workspace's key deletes the key, and the numbers of the
-- workspace's keys then begin again.
-- Invites (cmd/revoked/services/invites.go, cmd/revoked/routes/publicInvites.go,
-- cmd/revoked/hooks/invites.go): creating invites (Hooks), and accepting them: who joins with what
-- (Joining), and how many (Uses). The hooks use the grant of Members, the new row its hook on creates.
-- Features (util/features.go): the catalogue of features and the normal form of a choice (Chosen).
-- PasskeyVault (`passkeyVault` of cmd/revoked/routes/passkeys.go): values under one-time keys; Bounded
-- is about its loops and its limit, Kept about what a key gives.
-- Oidc (cmd/revoked/routes/oidc.go, cmd/revoked/services/oidc.go, util/oidc.go, util/connections.go):
-- the OpenID Connect provider. Requests checks an authorization request, Given and Transactions are
-- the decision of a person, Shares what it shares and files, Consent and Handlers the handlers,
-- Claims what a service is told, Runs any sequence of requests. It keeps tickets, codes and tokens in
-- PasskeyVault and the sign-in of each person, workspace and service in SignIns. Accepted, Asked,
-- Once and Ended hold the results, Projected and Stepping what each request leaves. A request of the
-- model carries its time, fresh keys and the luck of its writes.
-- Archive (cmd/revoked/services/archive.go): safe names of files (Safe), and their unique names in an
-- archive (Names).
-- Reminders (cmd/revoked/services/reminders.go, cmd/revoked/hooks/reminders.go): passes over due
-- reminders (Passes), the guarded mark (Firing), and what may be saved (Prepared).
-- SafeHttp (util/safehttp.go): which addresses a callback may reach, and those as networks (Ranges).
-- Prelude: Boolean tests, answers that can be refused, lists and texts that the parts share.
--
-- State and failures: an operation takes the state and gives the new one. A row of the database is a
-- record with the columns that the code reads; a query is a function; whether a write is taken is a
-- Boolean that the operation is given, for each write that the code makes. A failed transaction leaves
-- the state. The time is an argument, a natural number; an unset time is `none`. Numbers of the
-- database are natural numbers, since the code stores no negative ones. The mutex of the limiter
-- makes its operations steps of a sequence. A Go map of errors is a list of field and reason; no
-- field is set twice in one diagnosis.
--
-- Bounds and fuel: nearly every loop of the code runs over a list and is recursion on it. Three run
-- on a count of rounds: the one that makes room in PasskeyVault gets as many as there are entries, each
-- round deletes one; the one that numbers a name in Archive gets two more than there are names taken,
-- of which it can meet each once; and the one that follows aliases in Vault.Reset gets as many as there
-- are rows, of which a chain of aliases has each at most once. Lengths in an encoding are below 2 ^ 32
-- and numbers below 2 ^ 64 where a theorem says so.
--
-- Not modelled: HTTP, JSON and the wording of errors; the rules' texts, which PocketBase evaluates;
-- SHA-256 and ECDSA P-256, which are parameters (`Crypto`); notifications and webhooks beyond the fact
-- that they are sent; the read routes of sealed storage, attestations, grants between
-- servers, mail, watermarks and the client application. Of the provider, the discovery document, the
-- page, the lists that its consent screen shows and the audit rows. Go's standard library where the
-- code calls it for URLs, JSON, patterns, hashes and letters is a parameter (`Library`).
pub mod Prelude
pub mod Oidc
pub mod PasskeyVault
pub mod Permissions
pub mod Members
pub mod RateLimit
pub mod Sealed
pub mod Links
pub mod Features
pub mod Invites
pub mod Archive
pub mod Connections
pub mod Reminders
pub mod SafeHttp
pub mod SignIns
pub mod Access
pub mod Vault
