-- ===== src/DbImpl/Put.antt =====
-- DB::Put and DBImpl::Put of leveldb/db/db_impl.cc.
pub mod ReadBack
pub mod Runs
pub mod Reads
use leveldb_study.Base.{ℕ, Bool, Option, some}
use leveldb_study.Status.{Status, Bytes}
use leveldb_study.Env.{Env}
use leveldb_study.DbImpl.{External, State}
use leveldb_study.DbImpl.Write.{write}

-- WriteBatch::WriteBatch and WriteBatch::Put, which are declared only.
pub record PutCalls (e : External) : Type 0 where
  pub new_batch : e.WriteBatch
  pub batch_put : Bytes → Bytes → e.WriteBatch → e.WriteBatch

module _ (e : External) (p : PutCalls e) (env : Env) (is_ok : Status → Bool)
    (others : State e → State e) where
  abbrev pub batch_of : Bytes → Bytes → e.WriteBatch
  batch_of key value = p.batch_put key value p.new_batch

  -- `fuel` and `me`, the address of the Writer, are those of Write.
  unfoldable pub put :
      ℕ → ℕ → Bool → Bytes → Bytes → State e → env.World → Option (Status × State e × env.World)
  unfolding write
  put fuel me sync key value s w =
      write e env is_ok others fuel me sync (some (batch_of key value)) s w
