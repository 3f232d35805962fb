-- ===== src/Vfs/Bcache/Read.antt =====
-- Reading a block through the cache gives the content of the block, and changes no content.
use mathlib.Core.Path.{subst}
use multikernel.Common.{
  ℕ, ◌+◌, ◌*◌, ◌%◌, ◌^◌, ◌<◌, ◌≡◌, refl, ap, ap₂, ◌∙◌, sym, fun_ext, ◌⊎◌, inl, inr, true, false,
  Option, none, some, pos, ◌==◌, ==_iff, ==_refl, arith, if◌then◌else◌, Bool-cases, Result, ok, err,
  einval,
}
use multikernel.Vfs.Disk.{Data, Disks, copy_from, ramdisk_read}
use multikernel.Vfs.Disk.Access.{fits, ramdisk_read-cases}
use multikernel.Vfs.Bcache.Flags.{FlagOps}
use multikernel.Vfs.Bcache.{
  Buffer, Cache, nr_buffers, block_size, block_offset, set_buffer, is_spare, getblk, brelse,
  released, loaded, given_up, read_in, bread,
}
use multikernel.Vfs.Bcache.Coherent.{
  Content, OnDisk, IsOf, Holds, Represents, set_buffer-Represents,
}
use multikernel.Vfs.Bcache.Get.{Missing, Gets, getblk-Gets}

module _ (ops : FlagOps) (size : ℕ) where
  open ops use {
    is_used, is_dirty, is_valid, set_used, set_unused, set_clean, set_invalid, set_valid, sets_used,
    sets_unused, sets_clean, sets_invalid, sets_valid,
  }

  -- What `bread` returns: nothing, for ever, and then the search starts at the first buffer and all
  -- are used or dirty; a null pointer; or a valid and referenced buffer with the block's content.
  abbrev pub Reads : Cache ops → Content → ℕ → ℕ → Option (Option ℕ × Cache ops) → Type 0
  Reads s f dev num none =
      (s.k ≡ 0) × ((j : ℕ) → j < nr_buffers → is_spare ops (s.buffers j) ≡ false)
  Reads s f dev num (some (none, s')) = Represents ops size s' f
  Reads s f dev num (some (some i, s')) =
      (i < nr_buffers)
      × Represents ops size s' f
      × IsOf ops size (s'.buffers i) dev num
      × (0 < (s'.buffers i).count)
      × (is_valid (s'.buffers i).flags ≡ true)
      × ((x : ℕ) → x < block_size → (s'.buffers i).bytes x ≡ f dev num x)

  readblk :
      (disks : Disks) (dev num : ℕ) (bytes : Data)
      → num * block_size < 2 ^ 32
      → ramdisk_read size disks dev bytes block_size (block_offset num) ≡ (
          if fits size dev block_size (pos (num * block_size))
          then (ok block_size, copy_from (disks dev) bytes block_size (num * block_size))
          else (err einval, bytes))
  readblk disks dev num bytes small =
      rw (offset_small num small)
        (ramdisk_read-cases size disks dev bytes block_size (pos (num * block_size)))
    where
      offset_small :
          (num : ℕ) → num * block_size < 2 ^ 32 → num * block_size % 2 ^ 32 ≡ num * block_size
      offset_small num lt = omega arith

  -- A release leaves the content of every block.
  released-Holds :
      (f : Content) (b : Buffer ops)
      → 0 < b.count
      → Holds ops size f b
      → Holds ops size f (released ops size b)
  released-Holds f b held h = elim (Bool-cases (b.count == 1)) [
    | inl last ↦ rw last (record {
      placed = λ v. h.placed (sym (sets_unused b.flags).2 ∙ v);
      cached = λ v. h.cached (sym (sets_unused b.flags).2 ∙ v);
      dirty_valid = λ d. (sets_unused b.flags).2 ∙ h.dirty_valid (sym (sets_unused b.flags).1 ∙ d);
      counted = (sets_unused b.flags).0;
    })
    | inr more ↦ rw more (record {
      placed = h.placed;
      cached = h.cached;
      dirty_valid = h.dirty_valid;
      counted = h.counted ∙ ground (arith, more);
    })
  ]

  -- The fields that a release does not change
  pub released-same :
      (b : Buffer ops)
      → (is_valid (released ops size b).flags ≡ is_valid b.flags)
        × (is_dirty (released ops size b).flags ≡ is_dirty b.flags)
        × IsOf ops size (released ops size b) b.dev b.num
  released-same b = elim (Bool-cases (b.count == 1)) [
    | inl last ↦ rw last ((sets_unused b.flags).2, (sets_unused b.flags).1, (refl, refl))
    | inr more ↦ rw more (refl, refl, (refl, refl))
  ]

  pub brelse-Represents :
      (s : Cache ops) (f : Content) (i : ℕ)
      → Represents ops size s f
      → i < nr_buffers
      → 0 < (s.buffers i).count
      → (brelse ops size s (some i) ≡ (ok tt, set_buffer ops s i (released ops size (s.buffers i))))
        × Represents ops size (set_buffer ops s i (released ops size (s.buffers i))) f
  unfolding brelse
  brelse-Represents s f i r lt held =
      let b = s.buffers i in
      let same = released-same b in
      (
        ground arith,
        set_buffer-Represents ops size s f i (released ops size b) r
            (released-Holds f b held (r.holds i lt))
            (λ j hj ne vb vj (ed, en).
              r.apart i j lt hj (λ h. ne (sym h)) (sym same.0 ∙ vb) vj
                (sym same.2.0 ∙ ed, sym same.2.1 ∙ en))
            (λ dev num (d, (ed, en)). (same.1 ∙ d, (same.2.0 ∙ ed, same.2.1 ∙ en))),
      )

  set_same : (s : Cache ops) (i : ℕ) → set_buffer ops s i (s.buffers i) ≡ s
  set_same s i =
      ap (λ t. record s { buffers = t })
        (fun_ext (λ j. elim (Bool-cases (i == j)) [
          | inl hit ↦ rw hit (ap s.buffers ((==_iff i j).0 hit))
          | inr miss ↦ rw miss refl
        ]))

  gives_up :
      (s0 s : Cache ops) (f : Content) (dev num i : ℕ)
      → Represents ops size s f
      → i < nr_buffers
      → 0 < (s.buffers i).count
      → Reads s0 f dev num (given_up ops size (brelse ops size s (some i)))
  gives_up s0 s f dev num i r lt count =
      rw (brelse-Represents s f i r lt count).0 (brelse-Represents s f i r lt count).1

  -- The buffer after the read of its block
  abbrev filled : Buffer ops → Data → Buffer ops
  filled b bytes = record b { bytes = bytes; flags = set_valid b.flags }

  -- What the disk sends for a block that is in no buffer
  from_disk :
      (s : Cache ops) (f : Content) (dev num : ℕ) (bytes : Data)
      → Represents ops size s f
      → OnDisk size dev num
      → Missing ops size s dev num
      → (x : ℕ) → x < block_size
      → copy_from (s.disks dev) bytes block_size (num * block_size) x ≡ f dev num x
  from_disk s f dev num bytes r on missing x hx =
      sent_by (s.disks dev) bytes num x hx
      ∙ r.stores dev num on (λ j hj (d, of). missing j hj ((r.holds j hj).dirty_valid d) of) x hx
    where
      sent_by :
          (disk bytes : Data) (num x : ℕ)
          → x < block_size
          → copy_from disk bytes block_size (num * block_size) x ≡ disk (num * block_size + x)
      sent_by disk bytes num x lt = ground arith

  loaded-Reads :
      (s0 s : Cache ops) (f : Content) (dev num i : ℕ) (out : Result ℕ × Data)
      → Represents ops size s f
      → i < nr_buffers
      → IsOf ops size (s.buffers i) dev num
      → 0 < (s.buffers i).count
      → is_valid (s.buffers i).flags ≡ false
      → is_dirty (s.buffers i).flags ≡ false
      → Missing ops size s dev num
      → (out ≡ (err einval, (s.buffers i).bytes))
        ⊎ ((out ≡ (
          ok block_size,
          copy_from (s.disks dev) (s.buffers i).bytes block_size (num * block_size),
        ))
            × OnDisk size dev num)
      → Reads s0 f dev num (loaded ops size s i out)
  unfolding loaded
  loaded-Reads s0 s f dev num i out r lt (ed, en) count nv nd missing (inl e) = rw e (
      subst (λ t. Reads s0 f dev num (given_up ops size (brelse ops size t (some i))))
        (sym (set_same s i)) (gives_up s0 s f dev num i r lt count))
  loaded-Reads s0 s f dev num i out r lt (ed, en) count nv nd missing (inr (e, on)) = rw e (
    lt,
    set_buffer-Represents ops size s f i
        (filled (s.buffers i)
          (copy_from (s.disks dev) (s.buffers i).bytes block_size (num * block_size)))
        r
        (record {
          placed = λ _. rw (ed, en) on;
          cached = λ _ x hx.
              from_disk s f dev num (s.buffers i).bytes r on missing x hx
              ∙ ap₂ (λ y z. f y z x) (sym ed) (sym en);
          dirty_valid = λ _. (sets_valid (s.buffers i).flags).2;
          counted = (sets_valid (s.buffers i).flags).0 ∙ (r.holds i lt).counted;
        })
        (λ j hj ne _ vj (ed', en'). missing j hj vj (sym ed' ∙ ed, sym en' ∙ en))
        (λ dev num (d, _). absurd (ground (arith, d, nd))),
    rw (==_refl i) (ed, en),
    rw (==_refl i) count,
    rw (==_refl i) (sets_valid (s.buffers i).flags).2,
    λ x hx. rw (==_refl i) (from_disk s f dev num (s.buffers i).bytes r on missing x hx),
  )

  -- What the disk sends for a buffer's block
  block_out :
      (disks : Disks) (dev num : ℕ) (b : Buffer ops)
      → IsOf ops size b dev num
      → num * block_size < 2 ^ 32
      → (ramdisk_read size disks b.dev b.bytes block_size (block_offset b.num)
          ≡ (err einval, b.bytes))
        ⊎ ((ramdisk_read size disks b.dev b.bytes block_size (block_offset b.num)
              ≡ (ok block_size, copy_from (disks dev) b.bytes block_size (num * block_size)))
            × OnDisk size dev num)
  block_out disks dev num b of small =
      let sent =
        ap₂ (λ y z. ramdisk_read size disks y b.bytes block_size (block_offset z)) of.0 of.1
        ∙ readblk disks dev num b.bytes small in
      elim (Bool-cases (fits size dev block_size (pos (num * block_size)))) [
        | inl on ↦ inr (sent ∙ rw on refl, (small, on))
        | inr off ↦ inl (sent ∙ rw off refl)
      ]

  read_in-Reads :
      (s0 : Cache ops) (f : Content) (dev num : ℕ) (out : Option (Option ℕ × Cache ops))
      → num * block_size < 2 ^ 32
      → Gets ops size s0 f dev num out
      → Reads s0 f dev num (read_in ops size out)
  unfolding read_in
  read_in-Reads s0 f dev num none small g = g
  read_in-Reads s0 f dev num (some (none, s)) small g = g
  read_in-Reads s0 f dev num (some (some i, s)) small (lt, r, of, count, inl v) =
      rw v
        (lt, r, of, count, v, λ x hx. (r.holds i lt).cached v x hx ∙ ap₂ (λ y z. f y z x) of.0 of.1)
  read_in-Reads s0 f dev num (some (some i, s)) small (lt, r, of, count, inr (nv, nd, missing)) =
      rw nv (
        loaded-Reads s0 s f dev num i _ r lt of count nv nd missing
          (block_out s.disks dev num (s.buffers i) of small))

  -- In a cache that represents `f`, reading a block whose offset is one of 32 bits runs for ever
  -- only if the search for a victim starts at the first buffer and all are used or dirty. Else it
  -- returns a null pointer, or a valid and referenced buffer that holds what `f` has for the block;
  -- and it leaves a cache that represents `f`.
  pub bread-Reads :
      (s : Cache ops) (f : Content) (dev num : ℕ)
      → Represents ops size s f
      → num * block_size < 2 ^ 32
      → Reads s f dev num (bread ops size s dev num)
  unfolding bread
  bread-Reads s f dev num r small =
      read_in-Reads s f dev num (getblk ops size s dev num) small
        (getblk-Gets ops size s f dev num r)
