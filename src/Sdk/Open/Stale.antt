-- ===== src/Sdk/Open/Stale.antt =====
-- What is left of a file in the client after `close` of src/client/sdk.cpp.
use thesis_dfs.Inode.{Inode}
use thesis_dfs.Result.{Result}
