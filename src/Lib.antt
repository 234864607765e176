-- ===== src/Lib.antt =====
-- Mive, an execution layer on top of Ethereum: its genesis block, its chains of headers and of
-- blocks, the execution of a block, its RPC servers and the node that runs them.
--
-- The program. A node (node/node.go) is a container of services with a lifecycle: it is created,
-- services, APIs and handlers are registered on it, it is started once, and closed. `Start` sets up
-- the RPC endpoints (node/rpcstack.go): an HTTP server and a WebSocket server for the APIs that need
-- no authentication, two servers behind a token (node/jwt_handler.go) for all of them, an IPC server
-- and an in-process one. Calls of the admin API (node/api.go) start and stop the ordinary servers
-- later. The chain keeps headers in a database (core/rawdb) with two caches in front;
-- core/headerchain.go imports headers, switches the canonical chain to another branch and rewinds
-- it. core/blockchain.go sits on top: it keeps the head markers in memory and in the database, asks
-- an Ethereum client for blocks, and rewinds the header chain with callbacks that move its markers
-- down to a block with a state. core/genesis.go commits the genesis block, which NewBlockChain does
-- first. core/evm.go gives the virtual machine its block context, core/state_transition.go reads a
-- Mive message out of a transaction, and core/state_processor.go executes the messages of a block,
-- core/state_prefetcher.go ahead of it.
--
-- The modules.
-- * Base has the shared helpers: Boolean tests, lists, 64-bit words and Go strings as lists of
--   bytes.
-- * Params models params/config.go and params/protocol_params.go.
-- * Core.Types models core/types/block.go; Core.Rawdb the database that core/rawdb works on, with
--   Core.Rawdb.Accessors for core/rawdb/accessors_chain.go and Core.Rawdb.Metadata for
--   core/rawdb/accessors_metadata.go; Core.Lru go-ethereum's cache. The database and the cache are
--   records of operations, with laws that the theorems name; Core.Memory is an instance of both.
-- * Core.HeaderChain models core/headerchain.go: `HeaderChain` is the struct, passed in and handed
--   back, the functions keep their names (`Reorg` is `reorg`, `GetHeader` is `get_header`). A batch
--   is the list of its writes, and what the database says after its commit is given by the laws. A
--   call of log.Crit, which ends the process, is the error `fatal`.
-- * Core.BlockChain models core/blockchain.go: `BlockChain` is the struct, over an `Env` of what
--   other code does; Core.BlockChain.Reader and Core.BlockChain.Ethereum model
--   core/blockchain_reader.go, Core.BlockChain.Search and Core.BlockChain.Rewind the callbacks of
--   setHeadBeyondRoot, Core.BlockChain.LastState loadLastState, and Core.BlockChain.SetHead
--   setHeadBeyondRoot, SetHead and Reset, which call one another with loadLastState in between. The
--   callbacks share a `Closure`, since they change variables of the method and the chain.
-- * Core.Genesis models core/genesis.go with Core.Genesis.Setup for SetupGenesisBlockWithOverride;
--   Core.Genesis.Create models NewBlockChain, which calls it. `Run` tells an error from a panic and
--   from the end of the process.
-- * Core.Evm models core/evm.go, Core.Transition core/state_transition.go, Core.Processor
--   core/state_processor.go and Core.Processor.Prefetcher core/state_prefetcher.go, over a
--   `Machine`, which is go-ethereum's state database and virtual machine.
-- * Rpc.Handlers models the checks of node/rpcstack.go and node/jwt_handler.go, Rpc.Gzip the
--   compressing writer, Rpc.HttpServer the struct httpServer with its operations, Rpc.IpcServer the
--   struct ipcServer. An RPC server is a number; the numbers of those stopped are listed. Which APIs
--   RegisterApis registers under a list of modules, and what the CORS handler answers itself, are
--   parameters.
-- * Node.Config models node/config.go, Node.State, Node.Endpoints, Node.Startup and Node.Lifecycle
--   the struct Node of node/node.go, Node.Paths its getters of addresses and paths, Node.Api the
--   admin API. Node.World has the outcomes of the calls of other code; what the node does around
--   itself is a list of events. The locks of the node are held over a whole operation, so an
--   operation is one step.
-- * Tests has concrete inputs.
--
-- Numbers. A uint64 is a number with its wrap-around written out (`add64`, `sub64`, `% 2 ^ 64`); a
-- `*big.Int` is a number, since the program has no negative one here. Byte strings are lists of
-- codes; case is folded in ASCII only.
--
-- Fuel. The loops of `Reorg`, `GetHashFn` and `setHead` run on fuel. For `Reorg` more than the
-- numbers of the first header and of the head is enough, for `GetHashFn` the number of the reference
-- block; `GetAncestor` counts down the generations asked for. `setHead` has no bound in the source,
-- and takes whatever fuel it is given. The search of updateFn ends with fuel beyond the number of
-- its header. setHeadBeyondRoot calls itself through loadLastState and Reset, to a depth that is an
-- argument; the inner call finds the lock held, so a depth of two is enough.
--
-- Failures. A nil pointer that is used and a wait for a lock that the caller holds are errors of the
-- model, `nil_dereference` and `deadlock`; after these, and after `fatal`, the state that is handed
-- back has no meaning. The client's answers do not change while an operation runs.
--
-- Not modelled: the methods of core/blockchain_reader.go that only hand out a field or an event
-- feed, and insertChain, whose body is a stub; the JSON of core/genesis.go, which is a codec; the
-- backend in mive/, which makes the parts and registers them; the command line, the debugging, flag
-- and version packages under internal/ and the build scripts, which are mostly input and output or
-- come from go-ethereum. Logs, metrics and the timeouts of HTTP servers are left out everywhere.
pub mod Base
pub mod Params
pub mod Core
pub mod Rpc
pub mod Node
pub mod Tests
