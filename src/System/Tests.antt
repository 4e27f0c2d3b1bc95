-- ===== src/System/Tests.antt =====
-- A read of 200 bytes at the offset 500 of a file of 600 bytes, by a client of one server.
use sthreads.Prelude.{◌≡◌, refl, true, [], ◌∷◌, arith, length, replicate, take, drop}
use sthreads.Block.{Bytes}
use sthreads.Fs.Files.Contents.{contents_of}
use sthreads.Fs.InodeCache.Transparency.{inode_shown}
use sthreads.Fs.Writing.Sample.{ready, ready-IsReady}
use sthreads.Server.Protocol.{read_req}
use sthreads.Server.Ring.Fifo.{IsRing}
use sthreads.Server.Serving.{Req, null_req, Daemon, goes}
use sthreads.Client.Interface.{stat_ok}
use sthreads.Client.Remote.{Conn, got}
use sthreads.Client.Services.{snfs_read}
use sthreads.System.{answer}
use sthreads.System.Reading.{read_response, snfs_read-answer}

abbrev idle : Daemon
idle = record {
  ring = record { ring = replicate 10 null_req; get_pos = 3; put_pos = 3; available_reqs = 0 };
  fs = ready;
  sent = [];
}

idle-IsRing : IsRing idle.ring
idle-IsRing = record { size = refl; get_in = omega arith; put_at = refl; bounded = omega arith }

abbrev client : Conn
client = record { num_servers = 1; rr_index = 0; next_sn = 7; incoming = []; sent = [] }

abbrev bytes_read : Bytes
bytes_read = take 200 (drop 500 (contents_of ready (inode_shown ready 3)))

abbrev the_read : Req
the_read = record { sn = 7; req = read_req 3 500 200; cliaddr = 5 }

snfs_read-answer_example :
    (d' : Daemon) × (c' : Conn) × (answer 30 0 [] the_read idle ≡ goes d')
    × IsRing d'.ring
    × (d'.sent ≡ (5, 7, read_response bytes_read) ∷ [])
    × (snfs_read
          (λ i. true)
          3
          500
          200
          (record client { incoming = got 7 (read_response bytes_read) ∷ [] })
        ≡ (c', stat_ok (bytes_read, length bytes_read)))
    × (c'.sent ≡ (0, 7, read_req 3 500 200) ∷ [])
snfs_read-answer_example =
    snfs_read-answer (λ i. true) 30 0 [] 3 500 200 5 client idle (omega arith) refl idle-IsRing refl
      ready-IsReady (omega arith)
