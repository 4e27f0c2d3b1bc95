-- ===== src/Client/OpenFiles/Reading.antt =====
-- What my_read of snfs_lib/myfs.c gives, over servers that keep the file.
use sthreads.Prelude.{
  ℕ, zero, suc, ◌+◌, ◌-◌, ◌*◌, ◌%◌, ◌^◌, ◌<◌, ◌≤◌, ◌≡◌, refl, sym, ap, ◌∙◌, subst, min, true, false,
  some, [], ◌++◌, arith, inl, inr, ◌==◌, ltb, length, take, drop, Bool-cases, append-nil,
}
use native.Mathlib.Nat.{mod-eq_of_lt}
use sthreads.Block.{Bytes}
use sthreads.Server.Protocol.{max_read_data}
use sthreads.Client.Interface.{stat_ok, Api}
use sthreads.Client.OpenFiles.{
  FileDesc, Lib, Outcome, returns, node_get, put_desc, sub32, my_read_loop, read_amount, my_read,
}
use sthreads.Client.OpenFiles.Pieces.{take-pieces, fuel_left, fuel_start, take-drop_end}
use sthreads.Client.OpenFiles.Serving.{Serves, Changed, unchanged, put_desc-Changed, put-now_is}

module _ {S : Type 0} (api : Api S) (id : ℕ) where
  pub my_read_loop-step :
      (fuel size num : ℕ) (d : FileDesc) (acc : Bytes) (l : Lib S) (s : S) (xs : Bytes) (nread : ℕ)
      → 0 < num
      → d.read_offset + nread < 2 ^ 32
      → api.read id d.read_offset (min size num) l.conn ≡ (s, stat_ok (xs, nread))
      → my_read_loop api (suc fuel) id size num d acc l
        ≡ my_read_loop api fuel id
            (min size num)
            (sub32 num nread)
            (record d { read_offset = d.read_offset + nread })
            (acc ++ take nread xs)
            (put_desc api
              (record l { conn = s })
              id
              (record d { read_offset = d.read_offset + nread }))
  unfolding my_read_loop
  my_read_loop-step fuel size num d acc l s xs nread z f e =
      let more : (num == 0) ≡ false = ground (arith, z) in
      let e0 : (api.read id d.read_offset (min size num) l.conn).0 ≡ s = ap (λ r. r.0) e in
      let e1 : (api.read id d.read_offset (min size num) l.conn).1 ≡ stat_ok (xs, nread) =
        ap (λ r. r.1) e in
      let whole : (d.read_offset + nread) % 2 ^ 32 ≡ d.read_offset + nread = mod-eq_of_lt f in
      rw (more, e1, e0, whole) refl

  pub my_read_more :
      (fuel num n : ℕ) (d : FileDesc) (l : Lib S)
      → l.lib_initted ≡ true
      → node_get l.open_list id ≡ some d
      → (d.read_offset == d.size) ≡ false
      → read_amount d num ≡ n
      → my_read api fuel id num l ≡ my_read_loop api fuel id (min max_read_data n) n d [] l
  unfolding my_read
  my_read_more fuel num n d l i g t amount = simp (i, g, t, amount) refl

  my_read_end :
      (fuel num : ℕ) (d : FileDesc) (l : Lib S)
      → l.lib_initted ≡ true
      → node_get l.open_list id ≡ some d
      → (d.read_offset == d.size) ≡ true
      → my_read api fuel id num l ≡ (l, returns [])
  unfolding my_read
  my_read_end fuel num d l i g t = simp (i, g, t) refl

module _ {S : Type 0} (api : Api S) (id room : ℕ) (Holds : S → Bytes → Type 0)
    (v : Serves api id room Holds) where
  -- `l'` is what `num` bytes read from the descriptor `d` leave.
  pub record Read (l l' : Lib S) (bs : Bytes) (d : FileDesc) (num : ℕ) : Type 0 where
    pub holds : Holds l'.conn bs
    pub changed : Changed l l' id (record d { read_offset = d.read_offset + num })

  no_bytes :
      (d : FileDesc) (bs : Bytes) (l : Lib S)
      → Holds l.conn bs
      → node_get l.open_list id ≡ some d
      → Read l l bs d 0
  no_bytes d bs l h g =
      let e : d.read_offset ≡ d.read_offset + 0 = omega arith in
      record {
        holds = h;
        changed = subst (λ k. Changed l l id (record d { read_offset = k })) e (unchanged l id d g);
      }

  read_nothing :
      (d : FileDesc) (acc bs : Bytes) (l : Lib S)
      → Path
          (Lib S × Outcome Bytes)
          (l, returns acc)
          (l, returns (acc ++ take 0 (drop d.read_offset bs)))
  read_nothing d acc bs l = ap (λ xs. (l, returns xs)) (sym (append-nil acc))

  my_read_loop-Read :
      (fuel size num : ℕ) (d : FileDesc) (acc bs : Bytes) (l : Lib S)
      → Holds l.conn bs
      → node_get l.open_list id ≡ some d
      → d.read_offset + num ≤ length bs
      → length bs < 2 ^ 32
      → num ≤ fuel * size
      → size ≤ max_read_data
      → (l' : Lib S) × (my_read_loop api fuel id size num d acc l
          ≡ (l', returns (acc ++ take num (drop d.read_offset bs))))
        × Read l l' bs d num
  unfolding my_read_loop
  my_read_loop-Read zero size zero d acc bs l h g r w f m =
      (l, read_nothing d acc bs l, no_bytes d bs l h g)
  my_read_loop-Read (suc fuel) size zero d acc bs l h g r w f m =
      (l, read_nothing d acc bs l, no_bytes d bs l h g)
  my_read_loop-Read zero size (suc num) d acc bs l h g r w f m = absurd (omega arith)
  my_read_loop-Read (suc fuel) size (suc num) d acc bs l h g r w f m =
      let count = min size (suc num) in
      let (s, e, h') = v.reads l.conn bs d.read_offset count h (omega arith) (omega arith) in
      let left : sub32 (suc num) count ≡ suc num - count = omega arith in
      let d' = record d { read_offset = d.read_offset + count } in
      let l1 = put_desc api (record l { conn = s }) id d' in
      let (l', e', w') =
        my_read_loop-Read fuel count (suc num - count) d'
          (acc ++ take count (take count (drop d.read_offset bs))) bs l1 h'
          (put-now_is l id d d' g refl) (omega (arith, r)) w (fuel_left fuel size (suc num) f)
          (omega (arith, m)) in
      let at : d.read_offset + count + (suc num - count) ≡ d.read_offset + suc num = omega arith in
      (
        l',
        my_read_loop-step api id fuel size (suc num) d acc l s (take count (drop d.read_offset bs))
              count (omega arith) (omega (arith, r, w)) e
            ∙ ap
                (λ k.
                  my_read_loop api fuel id count k d'
                    (acc ++ take count (take count (drop d.read_offset bs))) l1)
                left
            ∙ e'
            ∙ ap (λ xs. (l', returns xs))
                (take-pieces (suc num) count d.read_offset acc bs (omega arith)),
        record {
          holds = w'.holds;
          changed =
              put_desc-Changed l id s l' d d' (record d { read_offset = d.read_offset + suc num }) g
                refl (subst (λ k. Changed l1 l' id (record d { read_offset = k })) at w'.changed);
        },
      )

read_amount_lem :
    (d : FileDesc) (num : ℕ)
    → d.read_offset ≤ d.size
    → d.size < 2 ^ 32
    → d.read_offset + num < 2 ^ 32
    → read_amount d num ≡ min num (d.size - d.read_offset)
read_amount_lem d num h w f =
    let whole : (d.read_offset + num) % 2 ^ 32 ≡ d.read_offset + num = mod-eq_of_lt f in
    elim (Bool-cases (ltb d.size (d.read_offset + num))) [
      | inl t ↦
          let lt : d.size < d.read_offset + num = ground (arith, t) in
          let e : sub32 d.size d.read_offset ≡ min num (d.size - d.read_offset) = omega arith in
          rw (whole, t) e
      | inr t ↦
          let le : d.read_offset + num ≤ d.size = ground (arith, t) in
          let e : num ≡ min num (d.size - d.read_offset) = omega arith in rw (whole, t) e
    ]

module _ {S : Type 0} (api : Api S) (id room : ℕ) (Holds : S → Bytes → Type 0)
    (v : Serves api id room Holds) where
  -- Over servers that keep the file, my_read of an open file at an offset in it, of a file
  -- below 2^31 bytes, with no sum beyond the 32 bits of an unsigned number and fuel for each
  -- 1024 bytes that there are to read, ends with the bytes from the offset on, as many as are
  -- asked for and there are, moves the offset behind them, and leaves the file and the other
  -- open files as they were.
  pub my_read-Read :
      (fuel num : ℕ) (d : FileDesc) (bs : Bytes) (l : Lib S)
      → Holds l.conn bs
      → l.lib_initted ≡ true
      → node_get l.open_list id ≡ some d
      → d.size ≡ length bs
      → d.read_offset ≤ length bs
      → length bs < 2 ^ 31
      → d.read_offset + num < 2 ^ 32
      → min num (length bs - d.read_offset) ≤ fuel * 1024
      → (l' : Lib S) × (my_read api fuel id num l
          ≡ (l', returns (take num (drop d.read_offset bs))))
        × Read api id room Holds v l l' bs d (min num (length bs - d.read_offset))
  my_read-Read fuel num d bs l h i g z o w s f =
      let n = min num (length bs - d.read_offset) in
      let amount : read_amount d num ≡ n =
        read_amount_lem d num (omega arith) (omega arith) s ∙ omega arith in
      let (l', e, r) =
        my_read_loop-Read api id room Holds v fuel (min max_read_data n) n d [] bs l h g
          (omega arith) (omega (arith, w)) (fuel_start fuel n 1024 f) (omega arith) in
      elim (Bool-cases (d.read_offset == d.size)) [
        | inr t ↦ (
          l',
          my_read_more api id fuel num n d l i g t amount
              ∙ e
              ∙ ap (λ xs. (l', returns xs)) (take-drop_end num d.read_offset bs),
          r,
        )
        | inl t ↦
            let none_left : n ≡ 0 = ground (arith, t, z) in
            (
              l,
              my_read_end api id fuel num d l i g t
                  ∙ ap (λ xs. (l, returns xs))
                      (ap (λ k. take k (drop d.read_offset bs)) (sym none_left)
                        ∙ take-drop_end num d.read_offset bs),
              subst (λ k. Read api id room Holds v l l bs d k) (sym none_left)
                  (no_bytes api id room Holds v d bs l h g),
            )
      ]
