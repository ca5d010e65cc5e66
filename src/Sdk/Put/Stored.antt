-- ===== src/Sdk/Put/Stored.antt =====
-- `SDK::put` against the namenode of src/node/namenode.cpp and the datanodes, and then `ls` and `get`.
use thesis_dfs.StorageType
use thesis_dfs.Sdk.Put.{put}
use thesis_dfs.Inode.{Inode}
use thesis_dfs.StorageType.{StorageType}
use thesis_dfs.Node.{Node}
use thesis_dfs.Sdk.Upload.Placed.{IsReliable}
use thesis_dfs.Prelude.{Text, List, ap}
use thesis_dfs.Sdk.Calls.{Master}
use thesis_dfs.UploadQueue.{UploadStatus}
use thesis_dfs.Sdk.Transfer.{Cluster}
use thesis_dfs.Result.{Result}
use thesis_dfs.Namenode.{Server, update_lock, put_ok}
use thesis_dfs.Namenode.Answers.{Reply, answer, answer_update_lock}
use thesis_dfs.Database.{Handle, remove_text}
use thesis_dfs.Database.Store.{Kv}

-- The namenode's database, the datanodes, the status of the task and the paths that the client keeps
-- locked.
pub record Site (kv : Kv) (World : Type 0) : Type 0 where
  pub handle : Handle kv
  pub datanodes : World
  pub status : UploadStatus
  pub remote_locks : List Text

module _ (kv : Kv) (World : Type 0) where
  answers : Site kv World → Reply × Handle kv → Reply × Site kv World
  answers w (reply, h) = (reply, record w { handle = h })

  -- The namenode answers each of the three requests as the server that it is then.
  unfoldable pub site_master : Server → Server → Server → Master (Site kv World)
  unfolding answers
  site_master putter locker finisher = record {
    put = λ request w.
        answers w (answer kv w.handle (thesis_dfs.Namenode.put kv putter w.handle request));
    update_lock = λ paths w.
        answers w (answer_update_lock kv w.handle (update_lock kv locker w.handle paths));
    put_ok = λ request w. answers w (answer kv w.handle (put_ok kv finisher w.handle request));
    change_status = λ status w. record w { status = status };
    unlock_remote = λ path w. record w { remote_locks = remove_text path w.remote_locks };
  }

  at_datanodes : Site kv World → Result Text × World → Result Text × Site kv World
  at_datanodes w (hash, datanodes) = (hash, record w { datanodes = datanodes })

  module _ (c : Cluster World) where
    unfoldable pub site_put : Text → Text → Site kv World → Result Text × Site kv World
    unfolding at_datanodes
    site_put node fragment w = at_datanodes w (c.put_to_datanode node fragment w.datanodes)

    pub site_put-IsReliable :
        IsReliable site_put c.hash c.up (λ node fragment w. c.Stored node fragment w.datanodes)
    unfolding site_put
    site_put-IsReliable = record {
      accepts = λ node fragment w light.
          let (d, e, here) = c.reliable.accepts node fragment w.datanodes light in
          (record w { datanodes = d }, ap (at_datanodes w) e, here);
      refuses = λ node fragment w dark.
          let (x, d, e, caught) = c.reliable.refuses node fragment w.datanodes dark in
          (x, record w { datanodes = d }, ap (at_datanodes w) e, caught);
      keeps = λ node fragment other kept w here.
          c.reliable.keeps node fragment other kept w.datanodes here;
    }

    -- The datanodes as a part of the site.
    unfoldable pub site_cluster : Cluster (Site kv World)
    site_cluster = record {
      put_to_datanode = site_put;
      get_from_datanode = λ w. c.get_from_datanode w.datanodes;
      hash = c.hash;
      up = c.up;
      Stored = λ node fragment w. c.Stored node fragment w.datanodes;
      reliable = site_put-IsReliable;
      hex = c.hex;
      readable = λ node fragment w here. c.readable node fragment w.datanodes here;
    }
