-- ===== src/Client/Services.antt =====
-- The calls of snfs_lib/snfs_api.c: a request is formatted and sent, and the response is read.
use sthreads.Prelude.{ℕ, ◌+◌, length, Bool, true, false, List, [], take, if◌then◌else◌}
use sthreads.Block.{Bytes}
use sthreads.Server.Protocol.{
  DirEntry, Request, ping_req, lookup_req, read_req, write_req, create_req, mkdir_req, readdir_req,
  copy_req, res_ok, ResBody, ping_res, lookup_res, read_res, write_res, create_res, mkdir_res,
  readdir_res, Response, max_file_name_size,
}
use sthreads.Client.Interface.{Call, stat_ok, stat_error, aborts, waits, Api}
use sthreads.Client.Remote.{Conn, remote_call, same_status}

-- The request as it arrives. The size that is sent ends behind the array of the path or the name,
-- and the server finds NULs there; a name is sent with the two bytes of padding behind it.
unfoldable pub wire : Request → Request
wire (lookup_req path) = lookup_req (take max_file_name_size path)
wire (create_req dir name) = create_req dir (take (max_file_name_size + 2) name)
wire (mkdir_req dir name) = mkdir_req dir (take (max_file_name_size + 2) name)
wire r = r

-- The parts of the union that the calls read. A body of another service reads as zeros.
abbrev pub lookup_body : ResBody → ℕ × ℕ
lookup_body (lookup_res file fsize) = (file, fsize)
lookup_body _ = (0, 0)

abbrev pub read_body : ResBody → Bytes × ℕ
read_body (read_res bs nread) = (bs, nread)
read_body _ = ([], 0)

abbrev pub write_body : ResBody → ℕ
write_body (write_res fsize) = fsize
write_body _ = 0

abbrev pub create_body : ResBody → ℕ
create_body (create_res file) = file
create_body _ = 0

abbrev pub mkdir_body : ResBody → ℕ
mkdir_body (mkdir_res dir) = dir
mkdir_body _ = 0

abbrev pub readdir_body : ResBody → List DirEntry
readdir_body (readdir_res count list) = take count list
readdir_body _ = []

abbrev pub ping_body : ResBody → Bytes
ping_body (ping_res msg) = msg
ping_body _ = []

module _ {A : Type 0} (body : ResBody → A) where
  -- `status < 0 || res.status != RES_OK`
  unfoldable pub result_of : Call Response → Call A
  result_of (stat_ok r) = if same_status r.status res_ok then stat_ok (body r.body) else stat_error
  result_of stat_error = stat_error
  result_of aborts = aborts
  result_of waits = waits

-- `sends i` tells whether sendto to the server `i` succeeds.
module _ (sends : ℕ → Bool) where
  unfoldable pub service : {A : Type 0} → (ResBody → A) → Bool → Request → Conn → Conn × Call A
  unfolding remote_call wire result_of
  service body to_all req c =
      let r = remote_call sends to_all (wire req) c in (r.0, result_of body r.1)

  unfoldable pub snfs_ping : Bytes → (insize outsize : ℕ) → Conn → Conn × Call Bytes
  unfolding service
  snfs_ping inmsg insize outsize =
      service (λ b. take outsize (ping_body b)) false (ping_req (take insize inmsg))

  unfoldable pub snfs_lookup : Bytes → Conn → Conn × Call (ℕ × ℕ)
  unfolding service
  snfs_lookup path = service lookup_body false (lookup_req path)

  unfoldable pub snfs_read : (fhandle offset count : ℕ) → Conn → Conn × Call (Bytes × ℕ)
  unfolding service
  snfs_read fhandle offset count = service read_body false (read_req fhandle offset count)

  unfoldable pub snfs_write : (fhandle offset count : ℕ) → Bytes → Conn → Conn × Call ℕ
  unfolding service
  snfs_write fhandle offset count bs =
      service write_body true (write_req fhandle offset count (take count bs))

  unfoldable pub snfs_create : ℕ → Bytes → Conn → Conn × Call ℕ
  unfolding service
  snfs_create dir name = service create_body true (create_req dir name)

  unfoldable pub snfs_mkdir : ℕ → Bytes → Conn → Conn × Call ℕ
  unfolding service
  snfs_mkdir dir name = service mkdir_body true (mkdir_req dir name)

  unfoldable pub snfs_readdir : (dir cmax : ℕ) → Conn → Conn × Call (List DirEntry)
  unfolding service
  snfs_readdir dir cmax = service readdir_body false (readdir_req dir cmax)

  unfoldable pub snfs_copy : Bytes → Bytes → Conn → Conn × Call (Unit {0})
  unfolding service
  snfs_copy srcpath tgtpath = service (λ b. tt) true (copy_req srcpath tgtpath)

  -- The API that myfs.c uses. The data of a write is the buffer up to the count.
  abbrev pub conn_api : Api Conn
  conn_api = record {
    lookup = snfs_lookup;
    read = snfs_read;
    write = λ fhandle offset bs. snfs_write fhandle offset (length bs) bs;
    create = snfs_create;
    mkdir = snfs_mkdir;
    readdir = snfs_readdir;
  }
