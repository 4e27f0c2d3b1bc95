-- ===== src/Server/Protocol.antt =====
-- The messages of include/snfs_proto.h. An `int` that only carries bits is the number of its 32 bits.
-- A text is the list of its bytes without the NUL.
use sthreads.Prelude.{ℕ, List}
use sthreads.Block.{Bytes}

abbrev pub max_file_name_size : ℕ
max_file_name_size = 14

abbrev pub max_path_name_size : ℕ
max_path_name_size = 200

abbrev pub max_read_data : ℕ
max_read_data = 1024

abbrev pub max_write_data : ℕ
max_write_data = 1024

abbrev pub max_readdir_entries : ℕ
max_readdir_entries = 64

-- `snfs_dir_entry_t`: the numbers of SNFS_DIR and SNFS_FILE
abbrev pub snfs_dir : ℕ
snfs_dir = 1

abbrev pub snfs_file : ℕ
snfs_file = 2

pub record DirEntry : Type 0 where
  pub name : Bytes
  pub len : ℕ
  pub etype : ℕ

-- The union of the requests, with the `type` that says which it is. `other` is a type without a
-- service.
pub data Request : Type 0 where
  ping_req : (msg : Bytes) → Request
  lookup_req : (pname : Bytes) → Request
  read_req : (fhandle offset count : ℕ) → Request
  write_req : (fhandle offset count : ℕ) → (data_bytes : Bytes) → Request
  create_req : (dir : ℕ) → (name : Bytes) → Request
  mkdir_req : (dir : ℕ) → (file : Bytes) → Request
  readdir_req : (dir cmax : ℕ) → Request
  copy_req : (srcpathname tgtpathname : Bytes) → Request
  other : (mtype : ℕ) → Request

-- `snfs_msg_type_t`
abbrev pub req_type : Request → ℕ
req_type (ping_req _) = 1
req_type (lookup_req _) = 2
req_type (read_req _ _ _) = 3
req_type (write_req _ _ _ _) = 4
req_type (create_req _ _) = 5
req_type (mkdir_req _ _) = 6
req_type (readdir_req _ _) = 7
req_type (copy_req _ _) = 8
req_type (other t) = t

-- `snfs_msg_res_status_t`
pub data Status : Type 0 where
  res_ok res_error res_unknown : Status

-- The union of the responses. `no_body` is a response whose body was not filled in.
pub data ResBody : Type 0 where
  no_body : ResBody
  ping_res : (msg : Bytes) → ResBody
  lookup_res : (file fsize : ℕ) → ResBody
  read_res : (data_bytes : Bytes) → (nread : ℕ) → ResBody
  write_res : (fsize : ℕ) → ResBody
  create_res : (file : ℕ) → ResBody
  mkdir_res : (newdirid : ℕ) → ResBody
  readdir_res : (count : ℕ) → (list : List DirEntry) → ResBody

pub record Response : Type 0 where
  pub mtype : ℕ
  pub status : Status
  pub body : ResBody
