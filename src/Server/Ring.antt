-- ===== src/Server/Ring.antt =====
-- The buffer of requests of snfs_server/server.c, between the producer and the consumers.
pub mod Fifo
use sthreads.Prelude.{
  ℕ, ◌+◌, ◌-◌, ◌%◌, Bool, Option, none, some, List, ◌==◌, get_or, set, if◌then◌else◌,
}

abbrev pub ring_size : ℕ
ring_size = 10

-- `get_pos` and `put_pos` are the static variables of get_req and put_req.
pub record Ring {ℓ} (A : Type ℓ) : Type ℓ where
  pub ring : List A
  pub get_pos : ℕ
  pub put_pos : ℕ
  pub available_reqs : ℕ

-- `null` is what stands outside the array.
module _ {ℓ} {A : Type ℓ} (null : A) where
  unfoldable pub get_req : Ring A → A × Ring A
  get_req r = (get_or r.ring r.get_pos null, record r { get_pos = (r.get_pos + 1) % ring_size })

  unfoldable pub put_req : A → Ring A → Ring A
  put_req x r = record r { ring = set r.ring r.put_pos x; put_pos = (r.put_pos + 1) % ring_size }

  -- The consumer's part inside the monitor. `none`: it waits.
  unfoldable pub consume : Ring A → Option (A × Ring A)
  unfolding get_req
  consume r =
      let (x, r') = get_req r in
      if r.available_reqs == 0
      then none
      else some (x, record r' { available_reqs = r.available_reqs - 1 })

  -- The producer's part inside the monitor, for the request that it receives. `none`: it waits.
  unfoldable pub produce : A → Ring A → Option (Ring A)
  unfolding put_req
  produce x r =
      if r.available_reqs == ring_size
      then none
      else some (record (put_req x r) { available_reqs = r.available_reqs + 1 })
