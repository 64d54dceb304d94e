-- ===== src/Lib.antt =====
-- A model of the Hermes Link server (src/hermes_link): the facade that mobile clients call, and
-- the stores behind it, with the theorems about them.
--
-- The parts, and the files that model them:
-- Prelude, Prelude/*: Python's texts as lists of code points, lists over the native numbers, and
--   the URL quoting that the pairing link uses.
-- Json: JSON values as `json.loads` returns them, and the conversions that the program applies.
-- Pairing/Profiles, Pairing/Validation, Pairing/Store: pairing/store.py. The two SQLite tables are
--   lists of rows; a method takes the database, the clock and the texts that it draws, and returns
--   its result with the database as it is committed. Pairing/Http: pairing/http.py.
-- Notifications/Events, Notifications/Direct: notifications/events.py and notifications/direct.py,
--   over an interface for Python's floats (Notifications/Floats). Notifications/Cloud:
--   notifications/cloud_sender.py, and the call of it in bridge.py.
-- Adapter/Paths, Adapter/Headers: integrations/hermes_agent/adapter.py, the translation of paths
--   and the headers that are sent to the Agent. Headers call the pairing store to authenticate.
--   Adapter/Client: the runtime status of the Agent, and the server-info endpoint of bridge.py.
-- Attachments: api/attachments.py. Capabilities: api/capabilities.py.
-- Identity, Identity/Attestation: identity/server.py. The identity file and the configuration file
--   are the state.
-- Bridge/Sse, Bridge/Trace, Bridge/Relay: the relay of a chat stream in
--   integrations/hermes_agent/bridge.py. The response is the list of its reads, the client is the
--   callback `write_chunk` with a state of any type.
-- Bridge/Access, Bridge/Cloud, Bridge/Models, Bridge/Pair: the endpoints of bridge.py that the
--   Server answers itself. They use the pairing store, the adapter and the identity.
-- Bridge/Routes: the handler that bridge.py chooses for a method, a path and a query.
-- Bridge/Proxy, Bridge/Upstream: `_proxy_agent`, up to the request to the Agent and from its response
--   on. Proxy uses the adapter and the attachments, Upstream the relay and the DIRECT store.
-- Bridge/Stream: the DIRECT stream of bridge.py, a loop over rounds that have a clock and a store each.
-- Bridge/Tasks: the query of `_read_tasks` in bridge.py, and the tasks of the rows it gives.
-- Export/Models: integrations/hermes_agent/model_config_exporter.py. It writes the snapshots that
--   Bridge/Models reads.
-- Release/*: scripts/release_manifest.py. Patterns has the patterns, Archive
--   the check of an image archive, Manifest that of a manifest, and Create the commands.
-- Tests/*: runs of the models at concrete inputs, and the theorems applied at them.
--
-- Names follow the source, without leading underscores. Errors are values: each component has the
-- result type of the exceptions that it raises. Numbers are unbounded, as Python's integers are.
--
-- Parameters, with no assumption unless a theorem names one: SHA-256, `unquote`, `urlparse`,
-- base64, the UTF-8 decoders, `json.loads` and `json.dumps` where a text is parsed or printed, the
-- redaction, the key generator and the signature. A list or a dictionary under `str` is printed as
-- its brackets where the result only meets patterns that no bracket passes.
--
-- Loops are structural recursion, but for two. The decimal digits of n are printed on fuel n + 1, which
-- is enough as each step divides by ten. The DIRECT stream has one unit of fuel for a round; a loop
-- that runs out of fuel ends as `running`, which no theorem takes for an end of the stream.
--
-- Not modelled: the log endpoint of bridge.py, redaction and redacted logs (regular expressions over
-- lines); `request` of adapter.py, which nothing calls; the other scripts, which check the repository
-- or prepare a deployment; the endless loops and the arguments of the commands; the timeout and the
-- constant headers of the HTTP requests; errors of the file system and of the SQLite engine, except
-- the constraints of the tables; the text of a JSON column, which is held as the value that
-- `json.loads` reads of it; texts without a UTF-8 encoding.
pub mod Prelude
pub mod Json
pub mod Pairing
pub mod Notifications
pub mod Adapter
pub mod Tests
pub mod Bridge
pub mod Attachments
pub mod Identity
pub mod Capabilities
pub mod Release
pub mod Export
