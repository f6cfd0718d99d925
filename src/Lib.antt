-- ===== src/Lib.antt =====
-- The backend of DeepDive: its documents, TODO plans, object storage, the history of an agent and the
-- permissions of its tools, its accounts and sessions, its analyses, events and snapshots.
--
-- backend/document keeps versioned documents for the tools of an agent: a service checks a call,
-- writes the content to the object storage and a revision to a repository. backend/todo keeps the
-- plan of an agent in numbered lists. backend/agent/context_manager.py picks, of an agent's stored
-- history, the items that are sent to the model. backend/execution/permissions.py decides on the tool
-- calls of the model, with the secret paths of backend/security. backend/storage has the keys and the
-- storage. backend/auth keeps the accounts, signs access tokens and hands out refresh tokens.
--
-- Document.Model is the state: `World` is the repository (backend/document/memory_repository.py,
-- `DocumentRepository`), the objects (backend/storage/memory.py) and the number of UUIDs drawn. An
-- action of type `M A` returns or raises, and what was written before a raise stays written.
-- Document.Repository has the repository's methods; Document.Sections and Document.Results the module
-- functions of backend/document/service.py and models.py; Document.Actions the private methods of
-- `DocumentService`; Document.Service its `create` and `create_folder`, and Document.Revise the other
-- methods. Document.Gate is about the checks that changes begin with, Document.Conflict about
-- two changes that expect the same version, Document.Replay and Document.Again about
-- tool calls that are sent again, Document.Overwrite about `update` without sections. Document.History reads the
-- repository as a history of revisions: its children show that each method is one `Step` of it, and
-- Document.History.Requests and Document.History.Records follow any row of calls.
-- Todo.Service and Todo.Repository are backend/todo/service.py and memory_repository.py;
-- Agent.Context is backend/agent/context_manager.py; Security.SecretPaths is
-- backend/security/secret_paths.py, without the SQL filter, and Execution.Permissions is
-- backend/execution/permissions.py, where the enabled tools are an argument; Api.Sse is the part of
-- backend/api/sse.py that picks what is shown of a stream event; Api.Records, Api.Pagination and
-- Api.Analyses are backend/api/records.py, pagination.py and `InMemoryAnalysisService` of in_memory.py;
-- Events.Types, Events.Envelope and Events.Routing are backend/events/types.py, envelope.py and
-- routing.py; Storage.Keys and Storage.Memory are backend/storage/keys.py and memory.py.
-- Auth.Jwt, Auth.Passwords and Auth.Tokens are backend/auth/jwt.py, passwords.py and the in-memory
-- stores of tokens.py and oauth.py. `AuthState` of Auth.Model is what `InMemoryAuthService` of
-- backend/auth/service.py keeps; Auth.Setup is its constructor, Auth.Accounts, Auth.Registration and
-- Auth.Sessions its methods. Auth.Steps has the changes that they make, as a step relation, over
-- Exec.Reach, Auth.Invariant what the steps keep, and Auth.Requests any row of calls; Auth.Access is
-- about access tokens and Auth.Login about passwords.
-- Snapshot.Scanner is backend/snapshot/scanner.py, and Snapshot.PosixPath what it uses of pathlib: the files
-- of the checkout, and the reader of blobs, which returns, are fields of its argument `ScanInput`.
-- Cache is the part of backend/cache/__init__.py that is about paths, prefixes and the names of locks.
-- Base, Text and Json are Python's lists, dicts, `str` and JSON values, as far as the above uses them.
--
-- A UUID is a number, and the UUIDs that `uuid.uuid7` returns, the UTF-8 codec and SHA-256 are fields
-- of `Platform`, an argument; that no UUID is drawn twice is a hypothesis, `Distinct`. `str` and `int`
-- of JSON values that are not texts are fields of `Builtins`. The clock's value is an argument of a
-- call; a call of backend/auth reads the clock once. What backend/auth draws, PBKDF2, SHA-256, HMAC,
-- Base64 and JSON are fields of `AuthPlatform` and `JwtLibrary`, with the laws of `JwtLaws` and
-- `PasswordLaws` as hypotheses; those of the API and of events are fields of `ApiPlatform` and
-- `EventPlatform`, with `CursorLaws` and `EventLaws`. Texts are lists of code points; `lower` maps A to Z
-- only, and UTF-8 encoding does not fail, as it does in Python on a lone surrogate. Times are numbers, so that one
-- without an offset compares with the others, where Python raises a TypeError. Loops are recursions on lists, and no fuel is used but in Text.Decimal, where the number itself bounds its digits.
--
-- Not modelled: PostgreSQL, MinIO and Kafka clients and the SQL they send, the rest of the HTTP API, the workers,
-- the stores of accounts and tokens on PostgreSQL and Redis, the git process and the builder of
-- snapshots, the execution of allowed tool calls, the files of the cache, the search of repositories, and
-- the frontend. Concurrent calls are not interleaved: each call of the service is one step.
pub mod Base
pub mod Text
pub mod Json
pub mod Exec
pub mod Auth
pub mod Events
pub mod Snapshot
pub mod Cache
pub mod Todo
pub mod Storage
pub mod Document
pub mod Agent
pub mod Api
pub mod Security
pub mod Execution
