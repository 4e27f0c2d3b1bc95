-- ===== src/Client/Tests.antt =====
-- The theorems on snfs_lib for small lists of open files, messages and files.
use sthreads.Prelude.{
  Bool, written_at, ℕ, ◌+◌, ◌≡◌, refl, true, false, some, none, [], ◌∷◌, arith, ◌==◌, if◌then◌else◌,
  length, take, drop,
}
use sthreads.Block.{Bytes}
use sthreads.Cells.{cell, Heap, done}
use sthreads.Cells.Chain.{Links, is_in, ends, links, one_cell, more_cells}
use sthreads.Client.FileQueue.{FileQueue, queue_node_remove}
use sthreads.Client.FileQueue.Removal.{
  IsFileQueue, first_with, without, queue_node_remove-IsFileQueue,
}
use sthreads.Server.Protocol.{res_ok, res_error, copy_req, no_body}
use sthreads.Client.Interface.{stat_ok, stat_error, Api}
use sthreads.Client.Remote.{Recv, got, Conn, remote_call}
use sthreads.Client.Remote.Agreement.{answers, asked, Verdict, remote_call-Verdict}
use sthreads.Client.Linked.{Link, linked_api, Linked, linked_api-Serves}
use sthreads.Client.OpenFiles.{
  FileDesc, Lib, returns, spins, node_get, my_read, my_write, static_lib, my_init_lib,
}
use sthreads.Client.OpenFiles.Serving.{Serves}
use sthreads.Client.OpenFiles.Reading.{Read, my_read-Read}
use sthreads.Client.OpenFiles.Writing.{my_write-my_read}
use sthreads.Client.OpenFiles.Stalling.{Stalls, my_read-spins}
use sthreads.Client.Paths.{split_path}
use sthreads.Client.OpenFiles.Counting.{IsLib}
use sthreads.Client.OpenFiles.Counting.Calls.{opens, closes, make_all, make_all-IsLib}

-- The descriptors 1 and 2 in the cells 5 and 7, with the numbers 31 and 32.
abbrev two_cells : Heap
two_cells a = if a == 5 then some (cell 1 7) else (if a == 7 then some (cell 2 0) else none)

abbrev two_queue : FileQueue
two_queue = record { first = 5; last = 7 }

abbrev two_links : Links
two_links = (5, 1) ∷ (7, 2) ∷ []

two-IsFileQueue : IsFileQueue two_cells two_queue two_links
two-IsFileQueue = record {
  chain = links (ground arith) refl refl (links (ground arith) refl refl ends);
  last_at = more_cells one_cell;
}

queue_node_remove-IsFileQueue_example :
    (g : Heap) × (q' : FileQueue) × (queue_node_remove (λ x. x + 30) 2 (some two_queue) 32 two_cells
      ≡ done (g, some q', some 2))
    × IsFileQueue g q' ((5, 1) ∷ [])
    × ((a : ℕ) → is_in a two_links ≡ false → g a ≡ two_cells a)
unfolding first_with without
queue_node_remove-IsFileQueue_example =
    queue_node_remove-IsFileQueue (λ x. x + 30) 32 2 two_cells two_queue two_links two-IsFileQueue
      (omega arith)

-- Two servers that answered an old request, and then differently to the request 6.
abbrev responds : ℕ → Recv
responds k =
    got k (record { mtype = 8; status = if k == 6 then res_ok else res_error; body = no_body })

abbrev replicated : Conn
replicated = record {
  num_servers = 2;
  rr_index = 1;
  next_sn = 6;
  incoming =
      responds 5
      ∷ responds 6
      ∷ got 6 (record { mtype = 8; status = res_error; body = no_body })
      ∷ [];
  sent = [];
}

remote_call-Verdict_example :
    ((remote_call (λ i. true) true (copy_req [] []) replicated).0.sent
      ≡ (0, 6, copy_req [] []) ∷ (1, 6, copy_req [] []) ∷ [])
    × Verdict 2
        (answers 6 replicated.incoming)
        replicated.incoming
        (remote_call (λ i. true) true (copy_req [] []) replicated).1
unfolding asked
remote_call-Verdict_example =
    remote_call-Verdict (λ i. true) (copy_req [] []) replicated (omega arith) (λ i h. refl)

-- A server that keeps one file in memory and knows nothing else.
abbrev memory_api : Api Bytes
memory_api = record {
  lookup = λ path s. (s, stat_error);
  read = λ id off count s. (s, stat_ok (take count (drop off s), count));
  write = λ id off ds s. (written_at s off ds, stat_ok (length (written_at s off ds)));
  create = λ dir name s. (s, stat_ok 3);
  mkdir = λ dir name s. (s, stat_error);
  readdir = λ dir cmax s. (s, stat_error);
}

abbrev file_desc : FileDesc
file_desc = record { file_id = 3; size = 4; read_offset = 1; write_offset = 1 }

abbrev reaches : ℕ → Bool
reaches i = true

-- The connection to the server that keeps a file of four bytes.
abbrev link : Link
link = record {
  conn = record { num_servers = 1; rr_index = 0; next_sn = 6; incoming = []; sent = [] };
  bytes = 10 ∷ 11 ∷ 12 ∷ 13 ∷ [];
}

link-Linked : Linked link (10 ∷ 11 ∷ 12 ∷ 13 ∷ [])
link-Linked = record { kept = refl; one_server = refl; first_place = refl }

abbrev api-Serves : Serves (linked_api reaches) 3 100 Linked
api-Serves = linked_api-Serves reaches refl 3 100

abbrev link_lib : Lib Link
link_lib = record { conn = link; open_list = file_desc ∷ []; lib_initted = true; open_files = 1 }

link_desc_open : node_get link_lib.open_list 3 ≡ some file_desc
unfolding node_get
link_desc_open = refl

my_read-Read_example :
    (l' : Lib Link) × (my_read (linked_api reaches) 1 3 2 link_lib ≡ (l', returns (11 ∷ 12 ∷ [])))
    × Read
        (linked_api reaches)
        3
        100
        Linked
        api-Serves
        link_lib
        l'
        (10 ∷ 11 ∷ 12 ∷ 13 ∷ [])
        file_desc
        2
my_read-Read_example =
    my_read-Read (linked_api reaches) 3 100 Linked api-Serves 1 2 file_desc (10 ∷ 11 ∷ 12 ∷ 13 ∷ [])
      link_lib link-Linked refl link_desc_open refl (omega arith) (omega arith) (omega arith)
      (omega arith)

my_write-my_read_example :
    (l1 : Lib Link) × (l2 : Lib Link) × (my_write (linked_api reaches) 1 3 (20 ∷ 21 ∷ []) link_lib
      ≡ (l1, returns 2))
    × (my_read (linked_api reaches) 1 3 2 l1 ≡ (l2, returns (20 ∷ 21 ∷ [])))
my_write-my_read_example =
    my_write-my_read (linked_api reaches) 3 100 Linked api-Serves 1 file_desc (20 ∷ 21 ∷ [])
      (10 ∷ 11 ∷ 12 ∷ 13 ∷ []) link_lib link-Linked refl link_desc_open refl refl (omega arith)
      (omega arith) (omega arith) (omega arith) (omega arith)

-- The library over the bytes alone.
abbrev file_lib : Lib Bytes
file_lib = record {
  conn = 10 ∷ 11 ∷ 12 ∷ 13 ∷ [];
  open_list = file_desc ∷ [];
  lib_initted = true;
  open_files = 1;
}

file_desc_open : node_get file_lib.open_list 3 ≡ some file_desc
unfolding node_get
file_desc_open = refl

make_all-IsLib_example : IsLib (
    make_all memory_api
      (opens (b'/' ∷ b'f' ∷ []) 1 ∷ closes 3 ∷ [])
      (my_init_lib memory_api true
        (7 ∷ [])
        (make_all memory_api (closes 3 ∷ []) (static_lib memory_api []))).0)
make_all-IsLib_example =
    make_all-IsLib memory_api (closes 3 ∷ []) (opens (b'/' ∷ b'f' ∷ []) 1 ∷ closes 3 ∷ []) true []
      (7 ∷ [])

-- The file "/dir1/f" is created as "fir1".
split_path_run :
    (split_path (b'/' ∷ b'd' ∷ b'i' ∷ b'r' ∷ b'1' ∷ b'/' ∷ b'f' ∷ [])).newfilename
    ≡ b'f' ∷ b'i' ∷ b'r' ∷ b'1' ∷ []
unfolding split_path
split_path_run = refl

-- The server that has no bytes of the file.
abbrev empty_api : Api Bytes
empty_api = record memory_api { read = λ id off count s. (s, stat_ok ([], 0)) }

empty_api-Stalls : Stalls empty_api 3 1 (λ s. Unit {0})
empty_api-Stalls = record { no_bytes = λ s count a. (s, [], refl, tt) }

my_read-spins_example : (l' : Lib Bytes) × (my_read empty_api 5 3 2 file_lib ≡ (l', spins))
my_read-spins_example =
    my_read-spins empty_api 3 (λ s. Unit {0}) 5 2 file_desc file_lib empty_api-Stalls tt refl
      file_desc_open refl (omega arith) (omega arith) (omega arith)
