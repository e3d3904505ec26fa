-- ===== src/Lib.antt =====
-- ton-indexer: the parts of the repository that are written in Go and keep its own logic.
--
-- The worker emulates incoming messages and leaves each trace in Redis: a hash under the trace's key
-- with a field for each node, "root_node" and, once it is classified, "actions"; and sorted sets
-- under the addresses that the trace touches. Two Go programs read them. ton-trace-ttl-tracker
-- listens for new traces and deletes them, and their members of the sorted sets, when they expire.
-- ton-index-go serves them, together with the database, as the rows of pending traces.
--
-- Prelude has what the modules share: Boolean tests, lists, `Yields` and `Result` for code that may
-- panic or fail, Go's maps (GoMap), signed integers (Int), and the parts of Go's library that the
-- code uses (Text for strings, with Substring
-- for the parts of a text, Base64 for encoding/base64, ParseInt and Hexadecimal for strconv,
-- Format for the verbs of fmt). MapSet is the
-- interface of golang-set, and MapSet/Listed meets it with lists.
--
-- ton-trace-ttl-tracker/main.go is modelled in Ttl:
--   Heap      ExpiryMinHeap with container/heap's Push and Pop (heap_push, heap_pop)
--   Expiry    ExpiryTracker: Add, GetExpired (add, get_expired); Expiry/Deadlines is what the
--             tracker promises, a deadline for each key, and `serve` is a sequence of its calls
--   Synthetic SyntheticTracesTracker;  Addresses  AddressCollector
--   Trace     readTrace, and the choice of the TTL in setupTraceTtl
--   Retry     deleteKeyWithRetry;  SortedSet  removeKeysFromSortedSet
--   Tracker   RedisTTLTracker: the handlers of listenForKeys and periodicExpiryCheck; `step` is one
--             round of either goroutine, `run` a schedule of rounds
--   Cleanup   RedisCleanupTool: takeSnapshot, cleanup
--   World     the interface of Redis and of the clock: each call returns a reply and a new state
--   Examples  the theorems at concrete inputs
--
-- ton-index-go/index is modelled in Index:
--   Emulated/Models, Actions, Rows   the structures of emulated/models.go and emulated/rows.go
--   Emulated/Convert       ConvertHSet (walk is its loop); Codec is msgpack and tonutils-go
--   Emulated/Transactions  the Str methods and GetTransactionRow
--   Emulated/Messages      calcHash, GetMessageRow, GetMessages
--   Emulated/ActionRows    GetActionRow
--   Pending                EmulatedTracesContext of pending.go: its state and what it is asked for
--   Pending/Filters        RemoveTraces, RemoveTransactions, FilterTraceActions,
--                          FilterTransactionsByAccounts
--   Pending/Fill           FillFromRawData: fill_node is the body of its inner loop, fill_trace and
--                          fill_key that of the outer one
--   Emulated/Repository    EmulatedTracesRepository of emulated/repository.go; Reader is Redis
--   Assemble               AssembleTraceTxsFromMap of crud.go; Assemble/Laws, Linked, Tracked and
--                          Explained are what its loop keeps: one place for each node, children
--                          below the senders of their messages, and the reasons for a warning
--   Balances               BalanceChanges of balances.go and its methods
--   Balances/Messages, Nodes, Visit, Transfers, Calculate
--                          CalculateBalanceChanges: fetchTrace, the tree of messages, the first walk,
--                          the second walk with checkJettonWallets, and the whole
--   Balances/Walk          a walk over a queue of nodes; Balances/Tree, Built  the weight of the tree
--   Query/Request          the requests of request.go
--   Query/Sql              getSortOrder, limitQuery, filterByArray and the filters that the builders
--                          of crud.go share
--   Query/Blocks, Transactions, Messages, Nft, Jettons, Accounts, Traces, Actions
--                          buildBlocksQuery and the other builders: they return the text of the
--                          query or an IndexError; the texts of columns are the source's
--   Query/Skeleton, Redact, Parts, Outcome
--                          a scanner of SQL literals, and what the parts of a query keep of it
--   Query/Build            all builders that put texts of a request into a query
--   Parse                  the String and MarshalJSON methods and the converters of parse.go
--   Parse/Blocks, Wallets  ParseBlockId, ParseBlockIdList, ParseWalletState
--   Action                 ParseRawAction: a function for each case of its switch
--   Comment                ParseCommentFromPayload of tlb.go, an argument of Action
--   Action/Addresses       CollectAddressesFromAction of crud.go
--   Sample                 a small trace
--   Examples, ReadExamples, BalanceExamples, QueryExamples, ActionExamples
--                          the theorems at concrete inputs
--
-- ton-metadata-fetcher takes tasks from a table and stores the metadata of tokens, which it finds in
-- the database and on the network. It is modelled in Metadata:
--   Content    AddressMetadata: hasAnyData, merge, getMetadataFromJson; extractURL
--   Ipfs       GetFile;  Images  BuildUrl
--   Fetch      fetchHttpMetadata, fetchIpfsMetadata, fetchOffchainMetadata, fetchContent
--   Overrides  GetContentOverride, getCommonMetadataFromDb, getNftMetadataFromDb, getMetadata;
--              Overrides/Load  Load
--   Tables     the two tables, and what the SQL statements do to them
--   Tasks      processTask, handleTaskFailure; Database is the interface of PostgreSQL, whose
--              commit may fail, and whose transactions act on the tables that they find at their end
--   Tasks/Queue  fetchTasks, updateStalledTasks;  Tasks/Laws, Tasks/Outcome  the laws of Database
--              and the ends of a task
--   Examples   the theorems at concrete inputs
-- Each of these files has the definitions, and the files in the folder of its name the lemmas.
--
-- State is passed on explicitly. A nil pointer is `none`; a function that may panic returns an
-- `Option`, in which `none` is the panic; an error is a value. Goroutines that share state under a
-- mutex are steps of one sequence. Maps are association lists in the order in which `range` meets
-- the entries, and the theorems hold for each list. Unsigned integers are natural numbers, and a
-- counter that wraps is taken modulo its width.
--
-- Fuel: get_expired_loop has the length of the heap, since each round takes an entry out. The sifting
-- of the heap is bounded by its length. The walk of ConvertHSet keeps no set of visited keys, so its
-- fuel is a bound on a weight that decreases from a node to those it sends messages to; such a
-- weight is there if the messages form a forest, as those of a trace do. The walks of
-- CalculateBalanceChanges need the weight of the root, which the tree is shown to have. The retries take the
-- number of attempts that the settings allow, and a scan of takeSnapshot the number of pages given.
-- The printing of a number takes 20 digits, which hold each number of 64 bits.
--
-- Not modelled: the running of the SQL queries and their handlers, the scans of
-- rows and UtimeTypeConverter, which needs floating point numbers, the start of
-- the metadata fetcher, the emulator's front end, the tools in utils, logging and timers; the C++ worker and the
-- Python classifier; the marshalling methods of the structures and the copying of rows to the
-- destinations of a scan. What Redis, msgpack and tonutils-go do are parameters.
mod Prelude
pub mod MapSet
pub mod Ttl
pub mod Index
pub mod Metadata
