-- ===== src/Client/Directories.antt =====
-- my_listdir and my_mkdir of snfs_lib/myfs.c over the SNFS API. The names are a list here.
use sthreads.Prelude.{ℕ, ◌&&◌, ◌||◌, not, List, map, length, ◌==◌, get_or, if◌then◌else◌}
use sthreads.Block.{Bytes}
use sthreads.Server.Protocol.{max_readdir_entries}
use sthreads.Client.Interface.{stat_ok, stat_error, aborts, waits, Api}
use sthreads.Client.Paths.{Names, myparse, split_path}
use sthreads.Client.OpenFiles.{Lib, Outcome, returns, minus_one, aborted, waiting}

module _ {S : Type 0} (api : Api S) where
  unfoldable pub list_names : ℕ → Lib S → Lib S × Outcome (List Bytes)
  list_names dir l =
      let r = api.readdir dir max_readdir_entries l.conn in
      let l' = record l { conn = r.0 } in
      elim r.1 [
        | stat_ok list ↦ (l', returns (map (λ e. e.name) list))
        | stat_error ↦ (l', minus_one)
        | aborts ↦ (l', aborted)
        | waits ↦ (l', waiting)
      ]

  unfoldable pub my_listdir : Bytes → Lib S → Lib S × Outcome (List Bytes)
  unfolding myparse list_names
  my_listdir path l =
      let r = api.lookup path l.conn in
      let l' = record l { conn = r.0 } in
      let at : Lib S × Outcome (List Bytes) = elim r.1 [
        | stat_ok (dir, fsize) ↦ list_names dir l'
        | stat_error ↦ (l', minus_one)
        | aborts ↦ (l', aborted)
        | waits ↦ (l', waiting)
      ] in
      if not l.lib_initted || not (myparse path)
      then (l, minus_one)
      else (if length path == 1 && get_or path 0 0 == b'/' then list_names 1 l else at)

  unfoldable pub mkdir_in : ℕ → Bytes → Lib S → Lib S × Outcome (Unit {0})
  mkdir_in dir name l =
      let r = api.mkdir dir name l.conn in
      let l' = record l { conn = r.0 } in
      elim r.1 [
        | stat_ok newdir ↦ (l', returns tt)
        | stat_error ↦ (l', minus_one)
        | aborts ↦ (l', aborted)
        | waits ↦ (l', waiting)
      ]

  -- the part of my_mkdir behind the lookup that found nothing
  unfoldable pub mkdir_new : Names → Lib S → Lib S × Outcome (Unit {0})
  unfolding mkdir_in
  mkdir_new names l =
      let r = api.lookup names.newdirname l.conn in
      let l' = record l { conn = r.0 } in
      let at : Lib S × Outcome (Unit {0}) = elim r.1 [
        | stat_ok (dir, fsize) ↦ mkdir_in dir names.newfilename l'
        | stat_error ↦ (l', minus_one)
        | aborts ↦ (l', aborted)
        | waits ↦ (l', waiting)
      ] in
      if names.parts == 1 then mkdir_in 1 names.newfilename l else at

  unfoldable pub my_mkdir : Bytes → Lib S → Lib S × Outcome (Unit {0})
  unfolding myparse split_path mkdir_new
  my_mkdir name l =
      let r = api.lookup name l.conn in
      let l' = record l { conn = r.0 } in
      if not l.lib_initted || not (myparse name) then (l, minus_one) else elim r.1 [
        | stat_ok (fh, fsize) ↦ (l', minus_one)
        | stat_error ↦ mkdir_new (split_path name) l'
        | aborts ↦ (l', aborted)
        | waits ↦ (l', waiting)
      ]
