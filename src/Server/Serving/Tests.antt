-- ===== src/Server/Serving/Tests.antt =====
-- The theorem on the consumers of snfs_server/server.c for two requests: a ping and one of an unknown type.
use sthreads.Prelude.{◌≡◌, refl, [], ◌∷◌, arith, ◌++◌, replicate}
use sthreads.Fs.State.{Fs}
use sthreads.Server.Protocol.{ping_req, other, ping_res, no_body, res_ok, res_unknown}
use sthreads.Server.Handlers.{handle, snfs_ping}
use sthreads.Server.Ring.{Ring}
use sthreads.Server.Ring.Fifo.{IsRing, contents, window}
use sthreads.Server.Serving.{Req, null_req, Daemon, goes}
use sthreads.Server.Serving.Order.{rounds, answer_all, rounds-answer_all}

abbrev no_files : Fs
no_files = record {
  blocks = record { block_size = 512; num_blocks = 0; bytes = [] };
  inode_bmap = [];
  blk_bmap = [];
  inode_tab = [];
  bcache = [];
  icache = [];
  dcache = [];
  lru_clock = 0;
}

abbrev ping : Req
ping = record { sn = 4; req = ping_req []; cliaddr = 1 }

abbrev strange : Req
strange = record { sn = 9; req = other 77; cliaddr = 2 }

-- The second request stands at the start of the array.
abbrev two_requests : Ring Req
two_requests = record {
  ring = strange ∷ (replicate 8 null_req ++ ping ∷ []);
  get_pos = 9;
  put_pos = 1;
  available_reqs = 2;
}

two_requests-IsRing : IsRing two_requests
two_requests-IsRing = record {
  size = refl;
  get_in = omega arith;
  put_at = refl;
  bounded = omega arith;
}

abbrev busy : Daemon
busy = record { ring = two_requests; fs = no_files; sent = [] }

rounds-answer_all_example :
    (r' : Ring Req) × IsRing r'
    × (contents null_req r' ≡ [])
    × (rounds (λ k. k) (λ k. 0) (λ k. []) 2 0 busy
        ≡ goes (record {
          ring = r';
          fs = no_files;
          sent =
              (
                1,
                4,
                record {
                  mtype = 1;
                  status = res_ok;
                  body = ping_res (b'h' ∷ b'e' ∷ b'l' ∷ b'l' ∷ b'o' ∷ []);
                },
              )
              ∷ (2, 9, record { mtype = 0; status = res_unknown; body = no_body })
              ∷ [];
        }))
unfolding answer_all handle snfs_ping contents window
rounds-answer_all_example = rounds-answer_all (λ k. k) (λ k. 0) (λ k. []) 0 busy two_requests-IsRing
