-- ===== src/Lib.antt =====
-- Fula: a client, a box that stores files and documents, and the protocols between them.
--
-- The program. A client (libraries/fula-client) opens streams over libp2p to a box (apps/box). Over the file
-- protocol (protocols/file) it sends files, in blocks that it may encrypt, and asks for metas and
-- contents; the box keeps them in IPFS (apps/box/src/file). Queries over the graph protocol go to
-- document stores (apps/box/src/graph). Both sides are built on libraries/async-later, whose iterables
-- are filled while they are read. An app that runs the client in a web view (libraries/rn-fula)
-- calls it there and exchanges streams of chunks with it; libraries/fula-client-react shows what it returns.
-- libraries/fula-sec encrypts the keys of files for other users. apps/firmware brings the
-- device of a box into a wireless network.
--
-- The files.
--   Prelude: shared names; lists over native numbers, exceptions as values (`Result`), integers.
--   AsyncLater: libraries/async-later/src. `Later` is iterate-later.ts and resolve-later.ts, its
--     promises in a heap and its generator as a state machine; `Partition` is partition.ts, `Values` is
--     value.ts, `Convert` is to-async-iterable.ts.
--   Wire: the interface to the runtime of the generated codecs, `@protobuf-ts/runtime`, and the loops that
--     all of them have. `Wire.Plain` is a runtime that meets the interface.
--   FileSchema: protocols/file/src/schema/index.ts, one module for each message.
--   Blocks: the block loops of `sendFile` (protocols/file/src/handlers/save.ts) and
--     `receiveDecryptedFile` (libraries/fula-client/src/index.ts), with aes-js as an interface.
--   FileProtocol: protocols/file/src/handlers. `Client` is what a client calls, `Node` is the box's handler,
--     `Dispatch` and `Session` are about both together.
--   GraphProtocol: protocols/graph/src. `Json` and `Binary` are schema/google/protobuf/struct.ts, `Messages` is
--     schema/graph.ts, `Queries` is handlers.
--   BoxFiles: apps/box/src/file/index.ts, with IPFS as an interface.
--   Graph: apps/box/src/graph/gql-engine. `Filter` is orbit-filter.ts, `Resolvers` is
--     orbit-resolvers.ts, with its subscriptions in `Watch`, `Objects` is its object literals, `Engine` is index.ts.
--   BoxGraph: apps/box/src/graph/index.ts. `Collections` is `loadDB` with the messages about
--     collections, `Methods` the methods for queries and subscriptions.
--   BoxProgram: apps/box/src/utils.ts and config.ts, with the rest of config.ts in `Config`; `Start` is app.ts.
--   Bridge: libraries/rn-fula/src. `Sender`, `Receiver`, `WebReceiver` (whose listeners are attached at the subscription) and `Buffers` are the streams, `Calls` the remote calls,
--     `Generator` is `observableToAsyncGenerator`, `Reader` is rn-client/utils.ts, `Component` is rn-client/FulaClient.tsx.
--   FulaClient: libraries/fula-client/src. It is connection.ts itself, `Streams` the guards of index.ts, `Peers` is
--     `connect`, `Files` and `Queries` are the operations, `Running` the streams that they open and close, `Config` config.ts.
--   FulaSec: libraries/fula-sec/src. ReactHooks: libraries/fula-client-react/src/hooks.
--   Firmware: apps/firmware: src/services/wifi and services.js; `Requests` is its server.
--   Tests: the theorems on concrete inputs.
--
-- How it is modelled. Promises are cells of a heap, and what runs in between two awaits is one step. A
-- stream between two peers is a function from the messages written to it to the peer's answer.
-- Exceptions and rejections are `err`. Strings are lists of UTF-16 code units and byte arrays are
-- lists of numbers. Numbers of queries are abstract, with their order, equality and texts; numbers of
-- a `Value` are their bits. Objects keep their entries in the order in which they were put, also where
-- a key is a number. An assignment to the key `__proto__` of an object makes no entry. An operation of the client takes the number of open streams and gives it back with its
-- result. A callback that waits for a command of the firmware is the script that it would run.
--
-- Fuel. `poll` has two rounds for each queued promise and four more; the codecs' loop has a round for
-- each byte and one more, since a tag takes a byte; messages of the graph protocol are read
-- to the depth of their bytes, since a message within takes one; the block loop has a round for each block and two
-- more; the readers' loops have a round for each message and one more; `fileReader2` has a round for each unit and
-- one more, since a slice takes one or more; `connectWithBackOff` has a round for each of its 100 tries and one more;
-- a subscription is read for the results that are there, and once more. Theorems state that a result is
-- reached. `stuck` is also what a wait that never ends comes to.
--
-- Not modelled: libp2p, IPFS, OrbitDB, GraphQL, aes-js, base64, dids, React and Koa, which are interfaces
-- or left out; what GraphQL makes of the resolvers' documents, so that a subscription takes the
-- data of each change; the start of the client and of libp2p, logging, templates,
-- the schema and deployment, which are input and output, data, or calls of libraries; names that
-- every object of the language has, such as `toString`, in `dbCollections` and as fields of documents; the examples; the copies of
-- Rush's scripts.
pub mod Prelude
pub mod AsyncLater
pub mod Wire
pub mod FileSchema
pub mod Blocks
pub mod FileProtocol
pub mod Graph
pub mod GraphProtocol
pub mod BoxFiles
pub mod FulaClient
pub mod BoxGraph
pub mod BoxProgram
pub mod FulaSec
pub mod ReactHooks
pub mod Firmware
pub mod Tests
pub mod Bridge
