-- ===== src/System.antt =====
-- A call of snfs_lib/snfs_api.c and the rounds of snfs_server/server.c that answer it.
pub mod Reading
mod Tests
use sthreads.Prelude.{ℕ, some}
use sthreads.Block.{Bytes}
use sthreads.Server.Serving.{Req, Daemon, Round, and_then, producer_round, consumer_round}

-- The request is received by the producer, and answered by a consumer.
unfoldable pub answer : (now unset : ℕ) → Bytes → Req → Daemon → Round
unfolding producer_round consumer_round
answer now unset junk x d = and_then (producer_round (some x) d) (consumer_round now unset junk)
