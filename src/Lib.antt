-- ===== src/Lib.antt =====
-- VoxBento, the portal for live interpretation: interpreters join a booth over a WebSocket, one of
-- them is active at a time and publishes to MediaMTX, and listeners hear the booth. This library
-- models the parts of the portal that decide who may do what; the results are listed at the end. It
-- is written after the Python code under portal/; each file names the code that it is about.
--
-- Parts and files:
-- - Prelude: Python's texts (lists of character codes), `dict` in insertion order, the exceptions
--   of the portal and chains of calls that may raise.
-- - Roles: portal/roles.py, the four roles, their permissions and ranks, and where each can be
--   assigned.
-- - Identity: portal/booth_identity.py, booth IDs and MediaMTX paths. `str.lower` is a parameter
--   `lower`; what is assumed of it (`LowerLaws`) is that it leaves ASCII lower-case letters, digits
--   and hyphens alone, and Identity.Ascii has a function that does. `int` and `str` have Python's
--   limit of 4300 digits. Identity.Decimal relates the two.
-- - Booth: portal/booth_state.py, the data of one booth and what each method of `BoothRegistry`
--   does to it. Booth.Calls and Booth.Handoff have the methods, Booth.Valid the invariant, and the
--   modules after them the lemmas on each method.
-- - Registry: portal/booth_state.py, `BoothRegistry` itself, a dict of booths by ID. The registry's
--   lock makes a method one step, so that a history of the portal is a list of method calls
--   (Registry.Methods). Registry.Histories, Registry.OnAir and Registry.Isolation are about all
--   histories.
-- - Connections: portal/websockets/manager.py, `ConnectionManager`, and
--   portal/websockets/handlers.py, how `ws_booth` accepts a connection. A history is a list of
--   steps between awaits (Connections.Connect). A table of epochs is the `OrderedDict` in its order
--   of writing. Connections.Lookup, Connections.Effects and Connections.Attempts have the lemmas on
--   each step. Connections.Broadcast is `broadcast`, with the checks that start-up injects as
--   parameters.
-- - Sockets: portal/websockets/manager.py, the `_handle_` functions, and
--   portal/websockets/handlers.py, the loop of `ws_booth`. Sockets.Messages has a function for each
--   message, on a session and on the registry and the tickets; Sockets.Loop is the loop, with the
--   calls that routes make between messages. Sockets.Refine relates the handlers to the methods of
--   the registry, and Sockets.Replies has the lemmas on answers that refuse.
-- - Listeners: portal/websockets/manager.py, `ListenerConnectionManager`, and
--   portal/websockets/handlers.py, `ws_captions`, how a listener is admitted. A history is a list
--   of steps between awaits. Whether a listener is anonymous is part of a step.
-- - Publish: portal/booth_publish.py, the tickets that MediaMTX presents on behalf of a browser.
--   SHA-256 is a parameter `hash` of which nothing is assumed. The check reads the registry;
--   Publish.Entitled relates it to the booth's own check.
-- - RateLimit: portal/rate_limit.py. RateLimit.Log is the specification, a log of the allowed
--   requests that forgets nothing.
-- - JoinCode: portal/join_code_limit.py. Python's `ipaddress.ip_address` is a parameter of which
--   nothing is assumed.
-- - Meeting: portal/meeting_source.py, the loop that keeps the meeting agent of a room running.
--   Meeting.Recover is `_recover`, Meeting.Reconcile the rest of `reconcile_room`, in the order of
--   its guards; a tick has what the floor bot, the media server and the transcription answer.
--   Meeting.Budget, Meeting.Bound and Meeting.GivesUp are about restarts, over ticks that the loop
--   leaves 2 seconds or more apart. `url_fingerprint` is a parameter of which nothing is assumed.
-- - UserAdmin: portal/user_admin.py with the tables of portal/models.py and the queries of
--   portal/database.py that it uses.
-- - Reaper: portal/websockets/reaper.py, one pass over the connections that
--   portal/websockets/manager.py keeps. Reaper.Entitled says independently of the code who is left.
-- - Hosting: portal/hosting_requests.py. `date.fromisoformat` is a parameter of which nothing is
--   assumed.
--
-- How the code is read: a method that raises is an `err`, beside the state that it leaves. Times
-- are whole numbers that the caller gives, or texts where the code only stores them. An ID, a
-- secret or a time that the code makes up is an argument of the call. Loops are structural
-- recursions; only the printing of numbers runs on fuel (Identity.Pattern), one step for each unit
-- of the number, which is enough since each step divides it by ten. Numbers are unbounded, as
-- Python's are.
--
-- Not modelled: the HTTP routes, templates and JavaScript; what listeners are sent, and the
-- connections of speech, in the WebSocket manager; connecting and disconnecting a meeting agent and
-- the sweep of stale ones; the database beyond the tables and queries named above; transcription,
-- translation, speech synthesis and program ingest, which drive processes and services; the login
-- rules of the unilimit package; the wording of messages after their first interpolated value.
pub mod Prelude
pub mod Roles
pub mod Identity
pub mod Booth
pub mod Registry
pub mod RateLimit
pub mod Connections
pub mod Listeners
pub mod Sockets
pub mod Publish
pub mod JoinCode
pub mod Meeting
pub mod UserAdmin
pub mod Hosting
pub mod Reaper
