-- ===== src/Client/Linked.antt =====
-- The calls of snfs_lib/snfs_api.c linked to a server that keeps one file: each call of the client is
-- answered by the message that such a server sends for the request.
use sthreads.Prelude.{
  ℕ, ◌≡◌, refl, ap, Bool, true, ◌∷◌, arith, length, take, drop, written_at, ◌==◌,
}
use sthreads.Block.{Bytes}
use sthreads.Server.Protocol.{
  Request, lookup_req, read_req, write_req, create_req, mkdir_req, readdir_req, res_ok, res_error,
  no_body, read_res, write_res, Response,
}
use sthreads.Client.Interface.{Call, stat_ok, Api}
use sthreads.Client.Remote.{
  Conn, got, remote_call, call_some, call_all, send_to, recv_first, recv_all, agree, all_agree,
}
use sthreads.Client.Services.{snfs_read, snfs_write, service, result_of, wire, conn_api}
use sthreads.Client.OpenFiles.Serving.{Serves}

-- the connection, and the bytes of the server's file
pub record Link : Type 0 where
  pub conn : Conn
  pub bytes : Bytes

unfoldable pub file_server : Request → Bytes → Bytes × Response
file_server (read_req id off count) bs =
    (bs, record { mtype = 3; status = res_ok; body = read_res (take count (drop off bs)) count })
file_server (write_req id off count ds) bs =
    let bs' = written_at bs off ds in
    (bs', record { mtype = 4; status = res_ok; body = write_res (length bs') })
file_server req bs = (bs, record { mtype = 0; status = res_error; body = no_body })

-- A call whose answer is the next message of the connection.
unfoldable pub linked : {A : Type 0} → (Conn → Conn × Call A) → Request → Link → Link × Call A
unfolding file_server
linked call req l =
    let served = file_server req l.bytes in
    let r = call (record l.conn { incoming = got l.conn.next_sn (served.1) ∷ l.conn.incoming }) in
    (record { conn = r.0; bytes = served.0 }, r.1)

module _ (sends : ℕ → Bool) where
  abbrev pub linked_api : Api Link
  linked_api = record {
    lookup = λ path. linked ((conn_api sends).lookup path) (lookup_req path);
    read = λ id off count. linked ((conn_api sends).read id off count) (read_req id off count);
    write =
        λ id off ds. linked ((conn_api sends).write id off ds) (write_req id off (length ds) ds);
    create = λ dir name. linked ((conn_api sends).create dir name) (create_req dir name);
    mkdir = λ dir name. linked ((conn_api sends).mkdir dir name) (mkdir_req dir name);
    readdir = λ dir cmax. linked ((conn_api sends).readdir dir cmax) (readdir_req dir cmax);
  }

-- One server is registered, as init_servers leaves it, and it keeps the bytes.
pub record Linked (l : Link) (bs : Bytes) : Type 0 where
  pub kept : l.bytes ≡ bs
  pub one_server : l.conn.num_servers ≡ 1
  pub first_place : l.conn.rr_index ≡ 0

-- A pair with a known second part.
with_second : {A B : Type 0} (x : A × B) {b : B} → x.1 ≡ b → x ≡ (x.0, b)
with_second x e = ap (λ b. (x.0, b)) e

module _ (sends : ℕ → Bool) (ok : sends 0 ≡ true) (id : ℕ) where
  read-linked :
      (l : Link) (bs : Bytes) (off count : ℕ)
      → Linked l bs
      → let r = linked (snfs_read sends id off count) (read_req id off count) l in
        (r.1 ≡ stat_ok (take count (drop off bs), count)) × Linked (r.0) bs
  unfolding linked snfs_read service result_of wire remote_call call_some send_to recv_first
  read-linked l bs off count v =
      let same : (l.conn.next_sn == l.conn.next_sn) ≡ true = ground arith in
      rw (v.one_server, v.first_place, ok, same, v.kept)
        (refl, record { kept = refl; one_server = refl; first_place = refl })

  write-linked :
      (l : Link) (bs ds : Bytes) (off : ℕ)
      → Linked l bs
      → let r =
          linked (snfs_write sends id off (length ds) ds) (write_req id off (length ds) ds) l in
        (r.1 ≡ stat_ok (length (written_at bs off ds))) × Linked (r.0) (written_at bs off ds)
  unfolding linked snfs_write service result_of wire remote_call call_all send_to recv_all agree
      all_agree
  write-linked l bs ds off v =
      let same : (l.conn.next_sn == l.conn.next_sn) ≡ true = ground arith in
      rw (v.one_server, ok, same, v.kept)
        (refl, record { kept = refl; one_server = refl; first_place = v.first_place })

  -- The calls of snfs_api.c serve a file of any size that the server keeps.
  pub linked_api-Serves : (room : ℕ) → Serves (linked_api sends) id room Linked
  linked_api-Serves room = record {
    reads = λ l bs off count v _ _.
        let (e, w) = read-linked l bs off count v in (_, with_second _ e, w);
    writes =
        λ l bs ds off v _ _ _. let (e, w) = write-linked l bs ds off v in (_, with_second _ e, w);
  }
