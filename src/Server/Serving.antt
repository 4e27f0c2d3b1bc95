-- ===== src/Server/Serving.antt =====
-- The threads of snfs_server/server.c over the ring of requests and the handlers: a round of a consumer
-- and of the producer. The round of a consumer is what it does when no other thread runs in between; the
-- locks around the handler are in Server.RwLock. `now`, `unset` and `junk` are as for the handlers.
pub mod Order
pub mod Tests
use sthreads.Prelude.{
  ℕ, zero, suc, ◌+◌, Option, none, some, List, [], ◌∷◌, ◌++◌, ◌==◌, if◌then◌else◌,
}
use sthreads.Block.{Bytes}
use sthreads.Fs.State.{Fs}
use sthreads.Server.Protocol.{Request, other, Response}
use sthreads.Server.Handlers.{Reply, replies, exits, handle}
use sthreads.Server.Ring.{Ring, ring_size, consume, produce}

-- `struct _req`: the message with its serial number, and who sent it
pub record Req : Type 0 where
  pub sn : ℕ
  pub req : Request
  pub cliaddr : ℕ

-- what a cell of the array that was never written holds
abbrev pub null_req : Req
null_req = record { sn = 0; req = other 0; cliaddr = 0 }

-- The ring, the file system and the responses that were sent: to whom, under which number.
pub record Daemon : Type 0 where
  pub ring : Ring Req
  pub fs : Fs
  pub sent : List (ℕ × ℕ × Response)

-- What a round comes to: a wait at the monitor, exit(-1), or a cache without a victim.
pub data Round : Type 0 where
  waits dies no_victim : Round
  goes : Daemon → Round

abbrev pub and_then : Round → (Daemon → Round) → Round
and_then waits f = waits
and_then dies f = dies
and_then no_victim f = no_victim
and_then (goes d) f = f d

-- the response with the number of the request, sent to the client
unfoldable pub respond : Req → Option (Fs × Reply) → Ring Req → List (ℕ × ℕ × Response) → Round
respond x none r sent = no_victim
respond x (some (fs, exits)) r sent = dies
respond x (some (fs, replies res)) r sent =
    goes (record { ring = r; fs = fs; sent = sent ++ (x.cliaddr, x.sn, res) ∷ [] })

unfoldable pub consumer_round : (now unset : ℕ) → Bytes → Daemon → Round
unfolding consume handle respond
consumer_round now unset junk d = elim (consume null_req d.ring) [
  | none ↦ waits
  | some (x, r) ↦ respond x (handle now unset junk x.req d.fs) r d.sent
]

-- The request that is received, or `none` for a message of no bytes, which is left out.
unfoldable pub producer_round : Option Req → Daemon → Round
unfolding produce
producer_round none d = if d.ring.available_reqs == ring_size then waits else goes d
producer_round (some x) d = elim (produce null_req x d.ring) [
  | none ↦ waits
  | some r ↦ goes (record d { ring = r })
]
