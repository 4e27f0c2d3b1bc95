-- ===== src/System/Reading.antt =====
-- A read of a file from the client's snfs_read (snfs_lib/snfs_api.c) over the server's threads
-- (snfs_server/server.c) and handlers (snfs_server/snfs.c) to the file system (snfs_server/fs.c) and back.
use sthreads.Prelude.{
  ℕ, ◌+◌, ◌%◌, ◌^◌, ◌<◌, ◌≤◌, ◌≡◌, refl, ap, ◌∙◌, Bool, true, false, some, [], ◌∷◌, ◌++◌, inl, inr,
  arith, min, leb, ◌==◌, length, take, drop,
}
use native.Mathlib.Nat.{mod-eq_of_lt}
use sthreads.Block.{Bytes}
use sthreads.Fs.State.{Fs}
use sthreads.Fs.Files.Contents.{contents_of}
use sthreads.Fs.Files.Calls.{IsReady, fs_read-contents}
use sthreads.Fs.InodeCache.Transparency.{inode_shown}
use sthreads.Server.Protocol.{Request, read_req, Response, res_ok, read_res, max_read_data}
use sthreads.Server.Handlers as Handlers
use sthreads.Server.Handlers.{Reply, replies, grants, handle, read_reply}
use sthreads.Server.Ring.{Ring}
use sthreads.Server.Ring.Fifo.{IsRing, contents, window, produce-contents, consume-contents}
use sthreads.Server.Serving.Order.{consumer_round-taken}
use sthreads.Server.Serving.{Req, null_req, Daemon, goes, respond, producer_round}
use sthreads.Client.Interface.{stat_ok}
use sthreads.Client.Remote.{Conn, got, remote_call, call_some, send_to, recv_first}
use sthreads.Client.Services.{snfs_read, service, result_of, wire}
use sthreads.System.{answer}

-- The response to a read of the bytes `bs`.
abbrev pub read_response : Bytes → Response
read_response bs = record { mtype = 3; status = res_ok; body = read_res bs (length bs) }

-- What the call of a client leaves, if the next message is the response to it.
module _ (sends : ℕ → Bool) (c : Conn) (h : c.rr_index < c.num_servers)
    (ok : sends c.rr_index ≡ true) where
  answered :
      (req : Request) (res : Response)
      → remote_call sends false req (record c { incoming = got c.next_sn res ∷ c.incoming }) ≡ (
        record c {
          rr_index = (c.rr_index + 1) % c.num_servers;
          next_sn = (c.next_sn + 1) % 2 ^ 32;
          sent = c.sent ++ (c.rr_index, c.next_sn, req) ∷ [];
        },
        stat_ok res,
      )
  unfolding remote_call call_some send_to recv_first
  answered req res =
      let n = c.num_servers in
      let some_server : (n == 0) ≡ false = ground (arith, h) in
      let one : min 1 n ≡ 1 = omega (arith, h) in
      let at : (c.rr_index + 0) % n ≡ c.rr_index = ap (λ k. k % n) (omega arith) ∙ mod-eq_of_lt h in
      let same : (c.next_sn == c.next_sn) ≡ true = ground arith in
      rw (some_server, one, at, ok, same) refl

within : (count : ℕ) → count ≤ max_read_data → leb count max_read_data ≡ true
within count h = ground (arith, h)

-- The handler of a read of a file that may be read.
handle-read :
    (now unset : ℕ) (junk : Bytes) (fhandle offset count : ℕ) (fs : Fs)
    → IsReady (fhandle % 2 ^ 16) fs
    → count ≤ max_read_data
    → (fs' : Fs) × (handle now unset junk (read_req fhandle offset count) fs
        ≡ some (
          fs',
          replies (
              read_response
                (take count (drop offset (contents_of fs (inode_shown fs (fhandle % 2 ^ 16)))))),
        ))
unfolding handle Handlers.snfs_read read_reply
handle-read now unset junk fhandle offset count fs v h =
    let (fs', e, _, _, _) = fs_read-contents now (fhandle % 2 ^ 16) offset count fs v in
    (fs', rw (within count h, e) refl)

-- A request that comes to an empty ring is the next that a consumer takes.
answer-taken :
    (now unset : ℕ) (junk : Bytes) (x : Req) (d : Daemon)
    → IsRing d.ring
    → d.ring.available_reqs ≡ 0
    → (r : Ring Req) × IsRing r
      × (answer now unset junk x d ≡ respond x (handle now unset junk x.req d.fs) r d.sent)
unfolding answer producer_round contents window
answer-taken now unset junk x d v z = elim (produce-contents null_req x d.ring v) [
  | inl (full, _) ↦ absurd (omega (arith, z, full))
  | inr (r, e, w, f) ↦ elim (consume-contents null_req r w) [
    | inl (empty, _) ↦ absurd (cc (f, empty, ap (window null_req d.ring.ring d.ring.get_pos) z))
    | inr (y, r', e', w', f') ↦
        let alone : contents null_req r ≡ x ∷ [] =
          f ∙ ap (λ n. window null_req d.ring.ring d.ring.get_pos n ++ (x ∷ [])) z in
        let same : y ≡ x = cc (alone, f') in
        (
          r',
          w',
          rw (e, answer, producer_round)
              (consumer_round-taken (λ _. now) (λ _. unset) (λ _. junk) 0 x r r' d.fs d.sent
                (e' ∙ ap (λ z. some (z, r')) same)),
        )
  ]
]

module _ (sends : ℕ → Bool) (now unset : ℕ) (junk : Bytes) where
  -- If the place for the next read is a server to which the send succeeds, its ring is
  -- well-formed and empty, and its file system is ready for a file of that number, then a
  -- request to read up to 1024 bytes under the number of the client is answered by a round of
  -- the producer and one of a consumer with the bytes that the file has there, and snfs_read of
  -- the client, which sends that request to the server, returns these bytes and their count
  -- when the answer is the next message.
  pub snfs_read-answer :
      (fhandle offset count client : ℕ) (c : Conn) (d : Daemon)
      → c.rr_index < c.num_servers
      → sends c.rr_index ≡ true
      → IsRing d.ring
      → d.ring.available_reqs ≡ 0
      → IsReady (fhandle % 2 ^ 16) d.fs
      → count ≤ max_read_data
      → let bs =
          take count (drop offset (contents_of d.fs (inode_shown d.fs (fhandle % 2 ^ 16)))) in
        let x : Req = record {
          sn = c.next_sn;
          req = read_req fhandle offset count;
          cliaddr = client;
        } in
        (d' : Daemon) × (c' : Conn) × (answer now unset junk x d ≡ goes d')
        × IsRing d'.ring
        × (d'.sent ≡ d.sent ++ (client, c.next_sn, read_response bs) ∷ [])
        × (snfs_read sends fhandle offset count
              (record c { incoming = got c.next_sn (read_response bs) ∷ c.incoming })
            ≡ (c', stat_ok (bs, length bs)))
        × (c'.sent ≡ c.sent ++ (c.rr_index, c.next_sn, read_req fhandle offset count) ∷ [])
  unfolding respond snfs_read service result_of wire
  snfs_read-answer fhandle offset count client c d h ok v z r l =
      let bs = take count (drop offset (contents_of d.fs (inode_shown d.fs (fhandle % 2 ^ 16)))) in
      let (fs', e) = handle-read now unset junk fhandle offset count d.fs r l in
      let x : Req = record {
        sn = c.next_sn;
        req = read_req fhandle offset count;
        cliaddr = client;
      } in
      let (r', w, f) = answer-taken now unset junk x d v z in
      (
        record { ring = r'; fs = fs'; sent = d.sent ++ (client, c.next_sn, read_response bs) ∷ [] },
        record c {
          rr_index = (c.rr_index + 1) % c.num_servers;
          next_sn = (c.next_sn + 1) % 2 ^ 32;
          sent = c.sent ++ (c.rr_index, c.next_sn, read_req fhandle offset count) ∷ [];
        },
        f ∙ ap (λ o. respond x o r' d.sent) e,
        w,
        refl,
        rw (answered sends c h ok (read_req fhandle offset count) (read_response bs)) refl,
        refl,
      )
