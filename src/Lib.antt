-- ===== src/Lib.antt =====
-- A model of the NexTalk relay: the shard node, the Router, and the worker that is both.
--
-- The relay stores messages for offline clients in mailboxes. The Router (router/router.js) decides
-- which shards hold a mailbox and signs capabilities for them; a shard (shard/worker.js) creates a
-- mailbox on a capability, takes messages of authenticated senders into its queue, copies them to the
-- replicas, and hands them to the reader who has the read secret. combined/worker.js is a worker that
-- plays both roles with the same handlers.
--
-- Which file models which part:
--   Base            the names that all files share: tests on numbers, lists, strings as code points
--   Js              the values of `JSON.parse`, and the regular expressions of the workers
--   Encoding        hexToBytes, bytesToHex, constantTimeEqual (shard/worker.js, router/router.js)
--   Platform        what the workers take from their host: the KV namespace, Web Crypto, fetch, the
--                   clock and random bytes; World is the state a handler runs in, Exec the sequencing
--                   of asynchronous steps with early responses and exceptions, Http the responses
--   Shard           shard/worker.js, a module for each group of functions:
--     Limits        rateLimit, clientIp, isBacklogStale
--     Crypto        verifyEd25519Message, verifyCapability, verifyCapabilityV2, verifySenderAuth
--     Keys          ensureShardIdentity, signWithShardKey, buildShardSignedResponse
--     Envelope      jsonDepth, validateEnvelopeShape
--     Create        handleCreate
--     Exists        handleExists
--     Send          handleSend
--     Read          handleRead
--     Replicate     replicateToSiblings, handleReplicate, getCachedRoutingTable
--     Table         handleRoutingTablePush, handleRoutingTableServe
--     Admin         handleHealth, handleAdminShardInfo, handleAdminRegister, handleServerHello
--     Rotate        handleAdminRotateKey
--     Work          leadingZeroBits, solvePow
--     Joining       ensureSelfRegistered; Taken is about what it sends to the Router
--     Dispatch      the fetch entry point
--     Frame         what steps leave every mailbox alone
--     Capacity      sequences of requests, the bound of the queues, and a mailbox as a queue
--   Router          router/router.js:
--     Ring          hashPoint, ownerForEra, eraCountsDescending, replicaSetForEra, replicationFactor
--     Topology      the merge at the end of getShardUrls
--     Config        getShardUrls, getRegisteredShards, getPriorShardCounts, getShardPubkeys, hmacHex
--     Register      handlePowChallenge, handleRegisterShard, getRoutingTableVersion
--     Answers       signHex, buildSignedResponse, handleServerHello (`router_hello`)
--     Table         buildSignedRoutingTable, handleRoutingTable, pushRoutingTableToShards
--     Status        checkShardHealth, getHealthyShards, handleStatus
--     Enroll        handleRegister
--     Resolve       handleResolve
--     Rotate        handleRotateShardKey
--     Dispatch      the fetch and the scheduled entry point
--   Combined        combined/worker.js, the functions that are its own; a function that differs from
--                   the one of the same name in another worker is called `node_...` here:
--     Create        localCreate, createOnReplica, handleCreate
--     Table         buildSignedRoutingTable, handleRoutingTable, pushRoutingTableToShards,
--                   handleRoutingTableServe
--     Enroll        handleRegister
--     Resolve       existsOnReplica, handleResolve
--     Admin         handleServerHello, handleAdminRotateKey, ensureSelfRegistered
--     Dispatch      the fetch and the scheduled entry point
--     Accepted      capabilities from the Router to a shard
--     Agreement     the combined worker's handleCreate against the shard's
--     Own           a node that is the primary shard itself
--   Transports      the build tools of browser extensions, transports/tools:
--     Leb           uleb, sleb (wasmasm.mjs)
--     Assembler     op, vec, sec, body, fns, buildQueueModule (wasmasm.mjs), and reading the code back
--     Machine       what WebAssembly does with these instructions
--     Host          put, blob, frames (verify-wasm.mjs)
--     Queue         the queue module that the host talks to
--     Verify        verifyWasm (verify-wasm.mjs)
--     Ntx           crc32, zip, validateManifest, writeNtx (ntx.mjs)
--     Build         the command line and the loop over the extensions (transports/build-wasm.mjs)
--   Tests           a small host and the theorems at concrete inputs
-- A function keeps its name in lower case with underscores. A long handler is cut where its tests end:
-- `parse_send`, `admit_send`, `deliver` and `respond` are the parts of `handleSend`, in its order.
--
-- The host is a parameter (`Platform`). Theorems on stored values have the hypothesis `KvLaws`: a read
-- returns what was written last under the key until it expires. A value that the code stores as the
-- text of `JSON.stringify` is kept as the value that it was made from, and any other text may stand in
-- its place, so that the failures of `JSON.parse` are modelled too. A handler runs at one instant, and
-- no other request runs between its steps. The requests of a `Promise.all` run in the order of its list.
-- Numbers are natural numbers or NaN; strings are lists of code points, and `toLowerCase` is that of
-- the ASCII letters, which is all that the tested strings hold. A pair of surrogates is one code point;
-- for a surrogate alone TextEncoder writes U+FFFD, and the model does.
--
-- Lengths of strings are counted in code points. ROUTER_ADMIN_KV is taken to be bound; the Router's
-- adminRateLimit is the shard's rateLimit at its namespace. In the combined worker the two namespaces,
-- which have no key in common, are one; its hexToBytes is the shard's, which agrees with the Router's
-- on the texts of even length that the tests of the form let through. The headers of outgoing requests
-- are left out, and so is what is logged. The Router's cache of the health of shards, a variable of the worker, is an argument and
-- a result of the functions that use it.
--
-- Loops are structural on the list or the counter that they run over. The only bound is one of the
-- code: solvePow gives up after eight million attempts. The inner loop of leadingZeroBits has eight
-- turns, and a byte that is not zero needs at most seven.
--
-- Theorems on keys have the hypothesis `IsKeyPair`: what the private key signs is 64 bytes, which the
-- public key verifies. `HashLaws` are the lengths of digests and of random bytes.
--
-- Background work of a request is a list of tasks in its state: the copies of a message and
-- ensureSelfRegistered, which is a function of its own. encodeURIComponent is a parameter there.
--
-- In the build tools a byte is a number below 256, `& 0x7f` and `& 255` are remainders, and `| 0x80` on a
-- group of seven bits is a sum. `uleb n` has `n + 1` rounds, of which each divides by 128. `frames` has a
-- round for each byte, and takes four at least. WebAssembly is modelled as its specification says, for
-- the instructions that the assembler has; `none` is a trap. JSON.stringify, deflateRawSync and SHA-256
-- are parameters; `writeNtx` returns the file that it writes.
--
-- The host's WebAssembly is a parameter of verifyWasm (`Engine`).
--
-- The build's inputs are the files of an extension, the run of its build script, which is a process of its
-- own, and JSON.parse. What it returns lists the files that it writes.
--
-- Not modelled: the bridge under transports/nextalk-relay/bridge, the scripts, and
-- transports/nextalk-relay/wasm/build.mjs, which is one call of the assembler and a write.
pub mod Base
pub mod Js
pub mod Encoding
pub mod Platform
pub mod Shard
pub mod Router
pub mod Combined
pub mod Transports
pub mod Tests
