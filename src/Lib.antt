-- ===== src/Lib.antt =====
-- SPKDFS: the metadata service of a distributed file system, its storage of blocks, and parts of its
-- clients.
--
-- Namenodes keep a tree of inodes in RocksDB. A request comes to a handler of the leader
-- (src/node/namenode.cpp), which checks it against the database and proposes a task to a raft
-- log. When braft has committed the task, each namenode applies it (RaftNN::on_apply in
-- src/node/raft_nn.cpp) by an `internal_` operation of src/node/rocksdb.cpp. So a check and its
-- change are apart in time. The datanodes form a raft group of their own, whose leader chooses the
-- namenodes (src/node/raft_dn.cpp). The client's daemon queues uploads
-- (src/client/daemon_upload_queue.cpp). The SDK (src/client/sdk.cpp, include/common/data_retrive.hpp)
-- splits a file into blocks, encodes each into fragments, puts these on datanodes in turn over streams
-- (src/node/datanode.cpp), and hands their locations to the namenode.
--
-- Files:
--   Prelude, Result: texts as lists of bytes, decimal numbers, splitting, and exceptions as values
--   (include/common/exception.h).
--   FilePath: simplify_path and get_parent_path of src/common/utils.cpp, with `std::filesystem`'s
--   lexically_normal, filename and parent_path by their documented rules.
--   Node: src/common/node.cpp. StorageType: src/common/storage_type.cpp. Inode: src/common/inode.cpp and
--   include/common/agg_inode.h.
--   Database: src/node/rocksdb.cpp, one function for each member function. The handle is `none`
--   while the database is closed. Database.Store is what RocksDB is used for, a parameter with the
--   law of reads after a batch. A stored value is the inode that its JSON text stands for.
--   RaftNn: tasks and on_apply. Namenode: the handlers; its children follow a request from the handler
--   through on_apply. Namenode.System: handlers, log and on_apply together, as a step relation.
--   RaftDn: RaftDN::on_leader_start and node_discovery; RaftDn.Timer, the timer that on_apply starts.
--   UploadQueue: the class of that name, on a heap of tasks, and DaemonUpload the class that has two
--   of them (src/client/daemon_upload.cpp).
--   PathLocks: src/common/pathlocks.cpp. ConnectionPool: include/common/connecttion_pool.hpp; the
--   locks of the pool are not modelled.
--   DataRetrive: the splitting of files and datanode_put of include/common/data_retrive.hpp. Stream:
--   src/common/stream.cpp and the loops that write to a stream by chunks. Datanode: put and get of
--   src/node/datanode.cpp, on files that are a map from paths. Sdk: src/client/sdk.cpp; Upload is
--   encode_one_block, Download is decode_one_block and get, Datanodes is put_to_datanode and
--   get_from_datanode with the datanode at the other end. Ranges is
--   read_data, Writes is write_data, Cache is update_inode. Sdk.Transfer puts blocks and files and gets them
--   back over a `Cluster`, what is relied on of the datanodes; Sdk.Datanodes.Reliable fills it.
--   Sdk.Put is put, over Sdk.Calls, the calls of the namenode with their retries; Sdk.Put.Stored joins it
--   with the handlers, on_apply (Namenode.Answers, Namenode.Uploads) and the datanodes. Sdk.Sync is
--   fsync, and Sdk.Open open, close, create and truncate with the locks. Fuse: src/client/fuse.cpp.
--   Tests: runs at concrete inputs.
--
-- Times are the values of `get_time()`, given as arguments; additions on 64-bit integers wrap.
-- The loop that chooses namenodes runs on fuel, the number of datanodes left, and each round looks
-- at one at least. The printing of a number runs on the number plus one, and each round divides it by ten.
--
-- The timer's loop runs on fuel, four scans for each namenode and one more.
-- The loop of encode_one_block runs on fuel, a round for each attempt to put a fragment; a fragment
-- waits at most one turn of all nodes for one that is up, so the number of fragments plus one, times
-- the number of nodes, is enough. The loops over chunks run on the length of the text, and each chunk
-- has a byte at least. An EAGAIN of brpc's StreamWrite is taken to end after some attempts.
--
-- A datanode has written what it received when the call that put it returns, while brpc calls `on_closed`
-- some time later. A request that failed is sent again as it was: what brpc does with a Controller that
-- is used twice without a Reset is not modelled. The local files of blocks are keyed by the path that the
-- caller gives; read_data takes the inode's own path, which is the same for a path that is simplified.
--
-- Not modelled: JSON texts, braft, brpc, RocksDB, liberasurecode and SHA-256, which are
-- parameters or left out; snapshots; the order in which `std::unordered_map` lists its keys, taken to be
-- that of insertion; putAggFile as a whole, the command line and process start.
pub mod Prelude
pub mod Result
pub mod FilePath
pub mod Node
pub mod StorageType
pub mod Inode
pub mod Database
pub mod RaftNn
pub mod Namenode
pub mod RaftDn
pub mod UploadQueue
pub mod PathLocks
pub mod DaemonUpload
pub mod ConnectionPool
pub mod Stream
pub mod Datanode
pub mod DataRetrive
pub mod Sdk
pub mod Fuse
pub mod Tests
