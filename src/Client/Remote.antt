-- ===== src/Client/Remote.antt =====
-- remote_call of snfs_lib/snfs_api.c. What the servers send is a list of messages to be received; a
-- call that is still waiting when the list ends is a `waits`. Serial numbers are 32 bits.
pub mod Agreement
pub mod Rotation
use sthreads.Prelude.{
  ℕ, zero, suc, ◌+◌, ◌-◌, ◌%◌, ◌^◌, min, Bool, true, false, ◌&&◌, Option, none, some, List, [], ◌∷◌,
  ◌++◌, ◌==◌, if◌then◌else◌,
}
use sthreads.Server.Protocol.{Request, Response, Status, res_ok, res_error, res_unknown}
use sthreads.Client.Interface.{Call, stat_ok, stat_error, aborts, waits}

abbrev pub max_servers : ℕ
max_servers = 8

abbrev pub read_servers_m : ℕ
read_servers_m = 1

-- What recvfrom gives: an error, the end of the connection, or a response with its serial number.
pub data Recv : Type 0 where
  recv_error recv_closed : Recv
  got : ℕ → Response → Recv

-- The static variables, what will be received, and what was sent: to which server, under which number.
pub record Conn : Type 0 where
  pub num_servers : ℕ
  pub rr_index : ℕ
  pub next_sn : ℕ
  pub incoming : List Recv
  pub sent : List (ℕ × ℕ × Request)

-- `for (int i = 1; i <= 1; i++)`: one server is registered, whatever its name is.
unfoldable pub init_servers : List Recv → Conn
init_servers incoming = record {
  num_servers = 1;
  rr_index = 0;
  next_sn = 0;
  incoming = incoming;
  sent = [];
}

abbrev pub same_status : Status → Status → Bool
same_status res_ok res_ok = true
same_status res_error res_error = true
same_status res_unknown res_unknown = true
same_status _ _ = false

-- the check that all have the status of the first
unfoldable pub all_agree : Status → List Response → Bool
all_agree s [] = true
all_agree s (r ∷ rs) = same_status r.status s && all_agree s rs

-- The loop that waits for `n` responses with the number: those received, or none.
unfoldable pub recv_all : (sn n : ℕ) → List Response → List Recv → List Recv × Call (List Response)
recv_all sn zero acc incoming = (incoming, stat_ok acc)
recv_all sn (suc n) acc [] = ([], waits)
recv_all sn (suc n) acc (recv_error ∷ incoming) = (incoming, stat_error)
recv_all sn (suc n) acc (recv_closed ∷ incoming) = (incoming, stat_error)
recv_all sn (suc n) acc (got k r ∷ incoming) =
    let take_it = recv_all sn n (acc ++ r ∷ []) incoming in
    let skip_it = recv_all sn (suc n) acc incoming in if k == sn then take_it else skip_it

-- The loop that waits for the first response with the number.
unfoldable pub recv_first : ℕ → List Recv → List Recv × Call Response
recv_first sn [] = ([], waits)
recv_first sn (recv_error ∷ incoming) = (incoming, stat_error)
recv_first sn (recv_closed ∷ incoming) = (incoming, stat_error)
recv_first sn (got k r ∷ incoming) =
    let rest = recv_first sn incoming in if k == sn then (incoming, stat_ok r) else rest

-- what is made of the responses of all servers
unfoldable pub agree : Call (List Response) → Call Response
unfolding all_agree
agree (stat_ok []) = stat_error
agree (stat_ok (r ∷ rs)) = if all_agree r.status rs then stat_ok r else aborts
agree stat_error = stat_error
agree aborts = aborts
agree waits = waits

-- `sends i` tells whether sendto to the server `i` succeeds.
module _ (sends : ℕ → Bool) where
  -- The loop that sends to `n` servers from the place `k` on, where `at k` is the server.
  unfoldable pub send_to : (ℕ → ℕ) → (n k sn : ℕ) → Request → Conn → Conn × Bool
  send_to at zero k sn req c = (c, true)
  send_to at (suc n) k sn req c =
      let rest = send_to at n (suc k) sn req (record c { sent = c.sent ++ (at k, sn, req) ∷ [] }) in
      if sends (at k) then rest else (c, false)

  unfoldable pub call_all : ℕ → Request → Conn → Conn × Call Response
  unfolding send_to recv_all agree
  call_all sn req c =
      let s = send_to (λ k. k) c.num_servers 0 sn req c in
      let r = recv_all sn c.num_servers [] c.incoming in
      if s.1 then (record (s.0) { incoming = r.0 }, agree r.1) else (s.0, stat_error)

  unfoldable pub call_some : ℕ → Request → Conn → Conn × Call Response
  unfolding send_to recv_first
  call_some sn req c =
      let m = min read_servers_m c.num_servers in
      let s = send_to (λ k. (c.rr_index + k) % c.num_servers) m 0 sn req c in
      let r = recv_first sn c.incoming in
      if s.1
      then (record (s.0) { rr_index = (c.rr_index + m) % c.num_servers; incoming = r.0 }, r.1)
      else (s.0, stat_error)

  unfoldable pub remote_call : Bool → Request → Conn → Conn × Call Response
  unfolding call_all call_some
  remote_call to_all req c =
      let c' = record c { next_sn = (c.next_sn + 1) % 2 ^ 32 } in
      if c.num_servers == 0
      then (c', stat_error)
      else (if to_all then call_all c.next_sn req c' else call_some c.next_sn req c')
