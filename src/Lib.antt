-- ===== src/Lib.antt =====
-- A model of the Titan explorer, the web backend of the Titan network (Go), and what is proved of
-- it.
--
-- Order: the container platform's orders (core/types.go, core/order, the order statements of
-- core/dao/platform.go and the order handlers of api/platform.go). Order/Types has the records,
-- Order/Params the check of a configuration, Order/Price the prices and refunds. Order/Prog names
-- each call to the outside (a statement, the clock, the chain client, the cluster's API), and a
-- program is a tree of such calls; Order/Store gives the statements on the table and the oracle
-- that answers every call, a failure included. Order/Manager holds the passes of the two timers and
-- the operations of core/order/impl.go, Order/Handlers the handlers. Order/Run runs a program alone
-- (`run`), or any number of timers and requests with their calls interleaved by a schedule
-- (`serve`).
--
-- Token: the faucet (core/token/manager.go, its statements in core/dao/platform.go, its handlers in
-- api/platform.go). Token/Calendar reads the clock, Token/Prog names the calls to the outside,
-- Token/Store has the tables and the statements, Token/Manager the operations and handlers, and
-- Token/Run runs requests one after the other (`serve_each`) or interleaved (`serve`). In what order
-- the database puts receipts of one time is a parameter of each call.
--
-- Keys: the API keys (core/storage/common.go and user.go, the key handlers of api/events.go, the
-- key check of api/common.go and api/jwt.go). Keys/Padding, Keys/Cbc and Keys/Cipher are the
-- encryption, over the AES block transform and base64 as parameters; Keys/ApiKeys creates keys,
-- with the encodings as parameters, Keys/ApiKeys/Users has the users' rows and the handlers.
--
-- Queue: the queues and counters in Redis (core/oprds/redis.go). Queue/Redis states what the code
-- relies on in Redis and in JSON, Queue/Client has the methods, Queue/Lists, Queue/AreaIds and
-- Queue/Counters their properties.
--
-- Kub: the passwords of cluster accounts (core/kubesphere/tool.go), over a source of randomness.
--
-- Assets: the storage users' files and folders (core/dao/user_assets.go, core/dao/asset_types.go)
-- and the job that empties removed folders (job/handler_delete_asset_group.go). Assets/Types has
-- the rows, Assets/Rows the statements on them, Assets/Prog names them as calls, and Assets/Store
-- runs a program on the tables: `fails` says which calls fail, and a transaction that is rolled
-- back leaves the tables as they were when it began. Assets/Files adds and deletes files,
-- Assets/Folders holds the folders, Assets/Jobs the job, and Assets/Files/Refine compares the
-- requests on files with a view of the files by user and hash. Assets/Listing lists a folder
-- (listAssetSummary of api/common.go and two handlers of api/events.go), Assets/Overview what is
-- shown of a file, reading the tables at one moment. Programs run one after the other, except in
-- Assets/Folders/Race. The two loops over folders, and the job's, take fuel; it is enough where it
-- is more than the number of folders and no folder lies inside itself. Sizes and ids are natural
-- numbers: a negative id finds no folder, and a negative file size is not modelled. An overflow of the
-- used size is a failing statement.
--
-- Sync: the synchronisation of files between areas. Sync/Records reads an area's records page by
-- page (getSyncSuccessHash of job/common.go), Sync/Success marks the rows of the files that are
-- complete there (getSyncSuccessAsset of job/cron.go). Sync/Areas asks the other areas
-- (SyncShedulers), and Sync/Round treats one payload of syncUserScheduler; Sync/Marks and
-- Sync/Ending say what it leaves. Sync/Rows has the statements. Sync/Traffic stores the hourly
-- traffic of files (syncDashboard), and Sync/Largest says what it stores. A round runs from its
-- first call to its last without another in between, and what schedulers answer is a parameter.
--
-- Base: lists, Go's 64-bit integers, early returns, and programs as trees of calls.
--
-- Not modelled, and parameters where the modelled code calls it: the chain client, the cluster's
-- HTTP API, the database's engine, the listings of orders, the other listings and handlers of
-- files, the other rounds of the jobs, the nodes' statistics and rewards, sign-in, tenants and the
-- administration. The timers' endless loops run for any number of rounds, and a schedule makes any
-- number of calls.
pub mod Base
pub mod Order
pub mod Token
pub mod Keys
pub mod Queue
pub mod Kub
pub mod Assets
pub mod Sync
