-- ===== src/Lib.antt =====
-- QuV4: the core of an ActivityPub server and its offline-first client.
--
-- The program keeps every federated or cross-device document in ApStore, over an ordered key-value
-- adapter; texts are JavaScript strings, lists of UTF-16 code units, and JSON documents are values.
--
--   Prelude    shared names: tests, lists, texts and their order, sorting
--   Core       packages/core: Cursor (cursor.js), Memory (memory-adapter.js), Volatile
--              (volatile-adapter.js), Listing (the list() the adapters share), JsMap (a Map),
--              Events (events.js, QuEvents);
--              Storage is the interface between the adapters and ApStore, with its laws
--   As2        packages/as2: Value (JSON documents), Vocabulary (vocabulary.js), Audience (audience.js),
--              Id (id.js), Canonical (canonicalize.js)
--   Store      packages/ap-store/src/store.js: keys and record writes in Store, the public methods in
--              Store.Methods; Store.View is the abstract store, a map from ids to records
--   Ingest     packages/ap-ingest/src/pipeline.js, and extractKeyId() of packages/ap-core/src/
--              http-signature.js: an incoming activity from its signature to ApStore
--   Delivery   packages/ap-delivery/src: Delivery (resolve-inboxes.js, deliver.js), Delivery.Entry
--              and Delivery.Queue (queue.js), the retry queue over ApStore
--   Groups     packages/ap-groups/src/membership.js: GroupMembership over ApStore
--   Reactive   packages/reactive/src/watch.js: a watch beside a store, as a step relation
--   ApCore     packages/ap-core/src: Base58 (base58.js), Multikey (multikey.js, and
--              packages/ap-encryption/src/x25519-multikey.js) and Signature (http-signature.js);
--              Webfinger (webfinger.js), Resolve (resolve.js: the actors and keys of other servers)
--              and Documents (actor.js, collections.js, nodeinfo.js)
--   Realtime   packages/ap-realtime/src: the frames (frame.js), and Realtime.Resume (resume.js);
--              Realtime.Sse is the client of the event stream (sse-client-transport.js) and
--              Realtime.Sse.Server its server (sse-server-transport.js)
--   Relay      packages/relay/src: Registry (registry.js) and Bridge (realtime-bridge.js), which lets
--              connected peers read and write ApStore by frames; Router (ap-router.js) is the HTTP
--              routes, with Paths and Replies, Accepts (auto-accept-follows.js) the answer to a Follow, and LocalIdentity
--              (local-actor.js) the keys of a local actor
--   Runtime    packages/runtime/src/fs-adapter.js: FsAdapter, a storage adapter over a directory
--   LocalVault packages/local-vault/src/vault.js and adapters/memory-adapter.js
--   Encryption packages/ap-encryption/src: guard.js; Encryption.Envelope (packages/core/src/crypto.js)
--              and Encryption.Payload (payload.js), by which several recipients read one payload
--   Client     packages/ap-client/src/client.js: ApClient, with its outbox in Client.Outbox and
--              publish() in Client.Publish; it keeps what it has not yet sent in its own ApStore
--   Examples   the theorems at concrete inputs
--
-- The clock is an argument of every operation that reads it. Asynchronous calls run to their end one
-- after the other, but in Reactive, whose steps interleave; each event of the bridge is one step.
-- Loops are structural recursion, but for three with fuel: the division loop of Base58, whose fuel is
-- the number itself, which falls at every turn; the letters of an id, whose fuel of 3 is one more than
-- a byte can add; and the events of a stream, whose fuel is the length of the text not yet read, which
-- each event shortens. Timestamps are natural numbers below 10^21, which
-- JavaScript prints in decimal; a cursor holds those below 10^15.
-- Parameters: fetch(), JSON.parse and JSON.stringify, encodeURIComponent() and decodeURIComponent(),
-- the order of readdir(), which names a file system takes, making a public key from PEM text,
-- verifying a signature, minting an id and random bytes, encrypting a payload, whether a send() of the client's transport returns, AES-GCM,
-- X25519, RSA, SHA-256, Base64, UTF-8, the parts of a URL, and what the network answers during a call.
-- Not modelled: the sockets and WebSocket transports (their frames are modelled, not the third-party
-- ws server), serve.js and the node:http glue of the event stream, the file vault,
-- signed-fetch.js (a fetch of a signed request), the activities and actors of
-- groups and personal devices (object literals), the ciphers themselves, the disk's failures but
-- for a refused file name, and the examples and tests.
pub mod Prelude
pub mod Core
pub mod As2
pub mod Store
pub mod ApCore
pub mod Ingest
pub mod Delivery
pub mod Groups
pub mod Reactive
pub mod Realtime
pub mod Relay
pub mod Encryption
pub mod Client
pub mod Runtime
pub mod LocalVault
pub mod Examples
