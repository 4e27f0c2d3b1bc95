-- ===== src/Client/Interface.antt =====
-- The SNFS API as myfs.c uses it: the calls of snfs_lib/snfs_api.c on a state of the connection.
use sthreads.Prelude.{ℕ, List}
use sthreads.Block.{Bytes}
use sthreads.Server.Protocol.{DirEntry}

-- What a call leaves: STAT_OK with what it wrote to its arguments, STAT_ERROR, exit(-1), or a wait
-- for a message that does not come.
pub data Call {ℓ} (A : Type ℓ) : Type ℓ where
  stat_ok : A → Call A
  stat_error aborts waits : Call A

-- A lookup gives the handle and the size, a read the data and the count of the bytes read, a write
-- the new size, a create and a mkdir the handle.
pub record Api (S : Type 0) : Type 0 where
  pub lookup : Bytes → S → S × Call (ℕ × ℕ)
  pub read : (fhandle offset count : ℕ) → S → S × Call (Bytes × ℕ)
  pub write : (fhandle offset : ℕ) → Bytes → S → S × Call ℕ
  pub create : ℕ → Bytes → S → S × Call ℕ
  pub mkdir : ℕ → Bytes → S → S × Call ℕ
  pub readdir : (dir cmax : ℕ) → S → S × Call (List DirEntry)
