-- ===== src/Lib.antt =====
-- A verification library of the backup operator: the HTTP service under operator/src that keeps
-- holders' sealed snapshots. A request carries four headers that prove the holder's key; its bytes
-- travel as chunks under a grant; a commit turns an upload into a retained snapshot; a background
-- task sweeps what has run out.
--
-- The parts, and the module of each:
--
-- * Error - operator/src/error.rs: the refusals, `code`, `status` and `detail`.
-- * Payload, Auth - operator/src/payload.rs and auth.rs: `signing_bytes`, `verify`, `authenticate`.
--   Auth.Replay follows one request through any sequence of requests and sweeps.
-- * Config - operator/src/config.rs: the configuration and the issuers' keys. Config.Env is
--   `from_env`, with the environment as a function; Config.Boot is what it rules out.
-- * Documents - operator/src/documents.rs: `canonical_bytes`, `sign`, `sign_receipt`,
--   `iso_duration`, `duration_seconds`; Documents.Published is `build` and what it publishes.
-- * Store - operator/src/store.rs: each table is a list of rows, each SQL statement a function.
--   Store.Quota holds the invariant on live snapshots.
-- * Blobs - operator/src/blobs.rs: uploads and retained snapshots as maps from a path to the parts.
-- * Entitlements, Lapse - operator/src/entitlements.rs and lapse.rs: what a credential is worth,
--   `register`, and what a holder may still do when payment has ended.
-- * Uploads - operator/src/uploads.rs: the handlers `preflight`, `put_chunk`, `commit`, `list` and
--   `download`; with the last is the snapshot route of operator/src/export.rs.
-- * Export - the export manifest and the receipts' route of operator/src/export.rs.
-- * Erasures - operator/src/erasures.rs: `compose` makes a receipt (Compose, Days), Mint one for each
--   pinned terms document, and Erase is the handler.
-- * Operations, Revocation - operator/src/operations.rs: `query`; operator/src/revocation.rs: `parse`
--   and `install`.
-- * Sweep - operator/src/sweep.rs: `reconcile`, whose steps are in Grace, Grants, Bytes and Records and
--   are put together in Reconcile; the cutoffs that operator/src/main.rs computes for it.
-- * Api - the route of operator/src/api.rs that serves terms documents.
-- * Operator - `AppState` of operator/src/api.rs: what is fixed at boot, and the state.
-- * System - every handler and the sweep as calls on one state; System.History runs any sequence.
-- * Clock, Crypto, Documents.Json - the libraries that the code calls, as records of parameters with
--   the documented behaviour that proofs rely on; Tests.Fixture gives instances of them.
-- * Prelude - shared helpers; Prelude.Exec is a state with errors in which what was written before an
--   error stays written. Tests holds the theorems at concrete inputs.
--
-- Texts are lists of the bytes of their UTF-8. Numbers are natural numbers; an `i64` that can wrap is
-- an integer with the wrap written out. No function runs on fuel: every loop of the source is a
-- recursion on a list or on a count that the source bounds it by.
--
-- Not modelled: fetching a revocation epoch over HTTP, migrations, and routing. A request or a sweep
-- runs to its end before the next one starts, as if the store's lock were held throughout;
-- Sweep.Unlinked lets the sweep's listings be stale. SQLite and the file system do not fail, but for a
-- missing file or a repeated key; nor does a blocking task that unlinks.
pub mod Prelude
pub mod Error
pub mod Clock
pub mod Crypto
pub mod Payload
pub mod Store
pub mod Config
pub mod Auth
pub mod Sweep
pub mod Documents
pub mod Blobs
pub mod Operator
pub mod Entitlements
pub mod Lapse
pub mod Revocation
pub mod Uploads
pub mod Operations
pub mod Erasures
pub mod Export
pub mod Api
pub mod System
pub mod Tests
