-- ===== src/Client/OpenFiles/Serving.antt =====
-- What the calls of snfs_lib/myfs.c on an open file ask of the API, and what they keep of the list of
-- open files.
use sthreads.Prelude.{
  ℕ, ◌+◌, ◌≤◌, ◌≡◌, ◌≢◌, refl, ◌∙◌, some, List, [], ◌∷◌, arith, inl, inr, ◌==◌, length, take, drop,
  written_at, Bool-cases,
}
use sthreads.Block.{Bytes}
use sthreads.Server.Protocol.{max_read_data, max_write_data}
use sthreads.Client.Interface.{stat_ok, Api}
use sthreads.Client.OpenFiles.{FileDesc, Lib, node_get, node_put}

-- The file `id` as the servers behind the API keep it: `Holds s bs` says that its contents are `bs`, and
-- it may grow to `room` bytes.
pub record Serves {S : Type 0} (api : Api S) (id room : ℕ) (Holds : S → Bytes → Type 0)
    : Type 0 where
  pub reads :
      (s : S) (bs : Bytes) (off count : ℕ)
      → Holds s bs
      → off + count ≤ length bs
      → count ≤ max_read_data
      → (s' : S) × (api.read id off count s ≡ (s', stat_ok (take count (drop off bs), count)))
        × Holds s' bs
  pub writes :
      (s : S) (bs ds : Bytes) (off : ℕ)
      → Holds s bs
      → off ≤ length bs
      → off + length ds ≤ room
      → length ds ≤ max_write_data
      → (s' : S) × (api.write id off ds s ≡ (s', stat_ok (length (written_at bs off ds))))
        × Holds s' (written_at bs off ds)

node_get-file_id :
    (q : List FileDesc) (id : ℕ) (d : FileDesc) → node_get q id ≡ some d → d.file_id ≡ id
unfolding node_get
node_get-file_id [] id d e = absurd (cc e)
node_get-file_id (x ∷ q) id d e = elim (Bool-cases (x.file_id == id)) [
  | inl t ↦ ground (arith, e, t)
  | inr t ↦ node_get-file_id q id d (ground (arith, e, t))
]

node_get-node_put :
    (q : List FileDesc) (id : ℕ) (d e : FileDesc)
    → node_get q id ≡ some d
    → e.file_id ≡ id
    → node_get (node_put q id e) id ≡ some e
unfolding node_get node_put
node_get-node_put [] id d e h f = absurd (cc h)
node_get-node_put (x ∷ q) id d e h f = elim (Bool-cases (x.file_id == id)) [
  | inl t ↦ ground (arith, f, t)
  | inr t ↦ ground (arith, t, node_get-node_put q id d e (ground (arith, h, t)) f)
]

node_get-node_put_ne :
    (q : List FileDesc) (id other : ℕ) (e : FileDesc)
    → other ≢ id
    → e.file_id ≡ id
    → node_get (node_put q id e) other ≡ node_get q other
unfolding node_get node_put
node_get-node_put_ne [] id other e ne f = refl
node_get-node_put_ne (x ∷ q) id other e ne f = elim (Bool-cases (x.file_id == id)) [
  | inl t ↦ ground (arith, f, t, ne)
  | inr t ↦ ground (arith, t, node_get-node_put_ne q id other e ne f)
]

-- The file `id` has the descriptor `d` now, and the rest of the library is as it was.
pub record Changed {S : Type 0} (l l' : Lib S) (id : ℕ) (d : FileDesc) : Type 0 where
  pub now_is : node_get l'.open_list id ≡ some d
  pub others : (other : ℕ) → other ≢ id → node_get l'.open_list other ≡ node_get l.open_list other
  pub initted_same : l'.lib_initted ≡ l.lib_initted
  pub count_same : l'.open_files ≡ l.open_files

module _ {S : Type 0} (l : Lib S) (id : ℕ) where
  pub unchanged : (d : FileDesc) → node_get l.open_list id ≡ some d → Changed l l id d
  unchanged d e = record {
    now_is = e;
    others = λ _ _. refl;
    initted_same = refl;
    count_same = refl;
  }

  -- a call and a write through the pointer, and then what comes after
  pub put_desc-Changed :
      (s : S) (l' : Lib S) (d e f : FileDesc)
      → node_get l.open_list id ≡ some d
      → e.file_id ≡ d.file_id
      → Changed (record l { conn = s; open_list = node_put l.open_list id e }) l' id f
      → Changed l l' id f
  put_desc-Changed s l' d e f h k v =
      let i : e.file_id ≡ id = k ∙ node_get-file_id l.open_list id d h in
      record {
        now_is = v.now_is;
        others = λ o ne. v.others o ne ∙ node_get-node_put_ne l.open_list id o e ne i;
        initted_same = v.initted_same;
        count_same = v.count_same;
      }

  pub put-now_is :
      (d e : FileDesc)
      → node_get l.open_list id ≡ some d
      → e.file_id ≡ d.file_id
      → node_get (node_put l.open_list id e) id ≡ some e
  put-now_is d e h k =
      node_get-node_put l.open_list id d e h (k ∙ node_get-file_id l.open_list id d h)
