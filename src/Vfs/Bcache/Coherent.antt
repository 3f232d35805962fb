-- ===== src/Vfs/Bcache/Coherent.antt =====
-- What the cache and the disks behind it represent: the content of each block. Nothing that the
-- cache does on its own changes it.
use mathlib.Core.Path.{subst}
use multikernel.Common.{
  update-all, ℕ, ◌+◌, ◌*◌, ◌%◌, ◌^◌, ◌<◌, ◌≡◌, ◌≢◌, refl, ap, ap₂, ◌∙◌, sym, inl, inr, true, false,
  ◌&&◌, pos, ltb, ◌==◌, ==_iff, arith, if◌then◌else◌, Bool-cases, update,
}
use multikernel.Vfs.Disk.{Data, Disks, is_within, copy_to, ramdisk_write}
use multikernel.Vfs.Disk.Access.{fits, ramdisk_write-cases}
use multikernel.Vfs.Bcache.Flags.{FlagOps}
use multikernel.Vfs.Bcache.{
  Buffer, Cache, nr_buffers, block_size, block_offset, set_buffer, write_back, cleaned,
}

-- What each block of each device holds
abbrev pub Content : Type 0
Content = ℕ → ℕ → Data

-- The block lies on a disk, and its offset is one of 32 bits.
abbrev pub OnDisk : ℕ → ℕ → ℕ → Type 0
OnDisk size dev num =
    (num * block_size < 2 ^ 32) × (fits size dev block_size (pos (num * block_size)) ≡ true)

module _ (ops : FlagOps) (size : ℕ) where
  open ops use {is_used, is_dirty, is_valid, set_clean, set_invalid, sets_clean, sets_invalid}

  -- The buffer is of that block.
  abbrev pub IsOf : Buffer ops → ℕ → ℕ → Type 0
  IsOf b dev num = (b.dev ≡ dev) × (b.num ≡ num)

  -- The disk is behind the buffer, for that block.
  abbrev pub Covers : Buffer ops → ℕ → ℕ → Type 0
  Covers b dev num = (is_dirty b.flags ≡ true) × IsOf b dev num

  abbrev pub Apart : Buffer ops → Buffer ops → Type 0
  Apart a b = is_valid a.flags ≡ true → is_valid b.flags ≡ true → ¬ IsOf a b.dev b.num

  -- A buffer that is valid holds the content of a block on a disk. One that is dirty is valid, and
  -- one is used as long as it is referenced.
  pub record Holds (f : Content) (b : Buffer ops) : Type 0 where
    pub placed : is_valid b.flags ≡ true → OnDisk size b.dev b.num
    pub cached : is_valid b.flags ≡ true → (x : ℕ) → x < block_size → b.bytes x ≡ f b.dev b.num x
    pub dirty_valid : is_dirty b.flags ≡ true → is_valid b.flags ≡ true
    pub counted : is_used b.flags ≡ ltb 0 b.count

  -- The disks hold the content of each block that no dirty buffer covers.
  abbrev pub Stores : Cache ops → Content → Type 0
  Stores s f =
      (dev num : ℕ)
      → OnDisk size dev num
      → ((i : ℕ) → i < nr_buffers → ¬ Covers (s.buffers i) dev num)
      → (x : ℕ) → x < block_size
      → s.disks dev (num * block_size + x) ≡ f dev num x

  pub record Represents (s : Cache ops) (f : Content) : Type 0 where
    pub position : s.k < nr_buffers
    pub holds : (i : ℕ) → i < nr_buffers → Holds f (s.buffers i)
    pub stores : Stores s f
    pub apart :
        (i j : ℕ) → i < nr_buffers → j < nr_buffers → i ≢ j → Apart (s.buffers i) (s.buffers j)

  -- The new entry `b` at `i` is of no other's block.
  abbrev Alone : Cache ops → ℕ → Buffer ops → Type 0
  Alone s i b = (j : ℕ) → j < nr_buffers → j ≢ i → Apart b (s.buffers j)

  Apart-sym : (a b : Buffer ops) → Apart a b → Apart b a
  Apart-sym a b h vb va (ed, en) = h va vb (sym ed, sym en)

  module _ (s : Cache ops) (f : Content) (i : ℕ) (b : Buffer ops) (r : Represents s f)
      (alone : Alone s i b) where
    pub update-Apart :
        (x y : ℕ)
        → x < nr_buffers
        → y < nr_buffers
        → x ≢ y
        → Apart (update s.buffers i b x) (update s.buffers i b y)
    update-Apart x y hx hy ne =
        update-all (λ a. Apart a (update s.buffers i b y)) s.buffers i b x
          (λ ex.
            update-all (Apart b) s.buffers i b y (λ ey. absurd (ne (sym ex ∙ ey))) (alone y hy))
          (λ nx.
            update-all (Apart (s.buffers x)) s.buffers i b y
              (λ ey. Apart-sym b (s.buffers x) (alone x hx nx)) (λ ny. r.apart x y hx hy ne))

  module _ (s : Cache ops) (f : Content) (i : ℕ) (b : Buffer ops) (r : Represents s f)
      (holds : Holds f b) (alone : Alone s i b) where
    -- A write to a buffer that leaves no dirty block uncovered
    pub set_buffer-Represents :
        ((dev num : ℕ) → Covers (s.buffers i) dev num → Covers b dev num)
        → Represents (set_buffer ops s i b) f
    set_buffer-Represents covers = record {
      position = r.position;
      holds = λ j hj. update-all (Holds f) s.buffers i b j (λ _. holds) (λ _. r.holds j hj);
      stores = λ dev num on free. r.stores dev num on λ j hj c. free j hj (
          update-all (λ a. Covers a dev num) s.buffers i b j
            (λ e. covers dev num (subst (λ x. Covers (s.buffers x) dev num) (sym e) c)) (λ _. c));
      apart = update-Apart s f i b r alone;
    }

  -- A write of a block to its disk changes that block alone.
  blocks_apart :
      (num num' x : ℕ)
      → num ≢ num'
      → x < block_size
      → is_within (num * block_size) block_size (num' * block_size + x) ≡ false
  blocks_apart num num' x ne lt = ground arith

  written_at :
      (disks : Disks) (dev num : ℕ) (bytes : Data) (dev' num' x : ℕ)
      → x < block_size
      → update disks dev
          (copy_to (disks dev) bytes block_size (num * block_size))
          dev'
          (num' * block_size + x)
        ≡ (if dev == dev' && num == num' then bytes x else disks dev' (num' * block_size + x))
  written_at disks dev num bytes dev' num' x lt = elim (Bool-cases (dev == dev')) [
    | inr miss ↦ rw miss refl
    | inl hit ↦ elim (Bool-cases (num == num')) [
      | inr miss ↦
          rw (hit, miss)
            (rw (blocks_apart num num' x (λ e. ground (arith, miss, e)) lt)
              (ap (λ z. disks z (num' * block_size + x)) ((==_iff dev dev').0 hit)))
      | inl same ↦ rw (hit, same) (ground (arith, same, lt))
    ]
  ]

  writeblk :
      (disks : Disks) (dev num : ℕ) (bytes : Data)
      → OnDisk size dev num
      → (ramdisk_write size disks dev bytes block_size (block_offset num)).1
        ≡ update disks dev (copy_to (disks dev) bytes block_size (num * block_size))
  writeblk disks dev num bytes (small, on) =
      rw
        (
          offset_small num small,
          ramdisk_write-cases size disks dev bytes block_size (pos (num * block_size)),
          on,
        )
        refl
    where
      offset_small :
          (num : ℕ) → num * block_size < 2 ^ 32 → num * block_size % 2 ^ 32 ≡ num * block_size
      offset_small num lt = omega arith

  abbrev clean : Buffer ops → Buffer ops
  clean b = record b { flags = set_clean b.flags }

  clean-Holds : (f : Content) (b : Buffer ops) → Holds f b → Holds f (clean b)
  clean-Holds f b h = record {
    placed = λ v. h.placed (sym (sets_clean b.flags).2 ∙ v);
    cached = λ v. h.cached (sym (sets_clean b.flags).2 ∙ v);
    dirty_valid = λ d. absurd (ground (arith, sets_clean b.flags, d));
    counted = (sets_clean b.flags).0 ∙ h.counted;
  }

  module _ (s : Cache ops) (f : Content) (i : ℕ) (r : Represents s f) (lt : i < nr_buffers) where
    keeps-Alone :
        (b : Buffer ops)
        → is_valid b.flags ≡ is_valid (s.buffers i).flags
        → IsOf b (s.buffers i).dev (s.buffers i).num
        → Alone s i b
    keeps-Alone b ev (ed, en) j hj ne vb vj (ed', en') =
        r.apart i j lt hj (λ e. ne (sym e)) (sym ev ∙ vb) vj (sym ed ∙ ed', sym en ∙ en')

    -- The disk holds the block that was written, and the others as before.
    after_write :
        (dev num : ℕ)
        → OnDisk size dev num
        → ((j : ℕ) → j < nr_buffers → ¬ Covers (update s.buffers i (clean (s.buffers i)) j) dev num)
        → (x : ℕ) → x < block_size
        → is_dirty (s.buffers i).flags ≡ true
        → (if (s.buffers i).dev == dev && (s.buffers i).num == num
            then (s.buffers i).bytes x
            else s.disks dev (num * block_size + x))
          ≡ f dev num x
    after_write dev num on free x hx d =
        let h = r.holds i lt in
        elim (Bool-cases ((s.buffers i).dev == dev && (s.buffers i).num == num)) [
          | inl same ↦ rw same (
              h.cached (h.dirty_valid d) x hx
              ∙ ap₂ (λ y z. f y z x) ((==_iff _ dev).0 (ground (arith, same)))
                  ((==_iff _ num).0 (ground (arith, same))))
          | inr other ↦ rw other (
              r.stores dev num on
                (λ j hj c. free j hj (
                  update-all (λ a. Covers a dev num) s.buffers i (clean (s.buffers i)) j
                    (λ e. absurd (
                      of_other (s.buffers i) dev num other
                        (subst (λ y. Covers (s.buffers y) dev num) (sym e) c)))
                    (λ _. c)))
                x hx)
        ]
      where
        of_other :
            (b : Buffer ops) (dev num : ℕ)
            → (b.dev == dev && b.num == num) ≡ false
            → Covers b dev num
            → ⊥
        of_other b dev num other (_, (ed, en)) = ground (arith, other, ed, en)

    pub write_back-Represents :
        is_dirty (s.buffers i).flags ≡ true → Represents (write_back ops size s i) f
    unfolding write_back
    write_back-Represents d =
        let h = r.holds i lt in
        let v = h.dirty_valid d in
        record {
          position = r.position;
          holds = λ j hj.
              update-all (Holds f) s.buffers i (clean (s.buffers i)) j
                (λ _. clean-Holds f (s.buffers i) h) (λ _. r.holds j hj);
          stores = λ dev num on free x hx.
              ap (λ g. g dev (num * block_size + x))
                (writeblk s.disks (s.buffers i).dev (s.buffers i).num (s.buffers i).bytes
                  (h.placed v))
              ∙ written_at s.disks (s.buffers i).dev (s.buffers i).num (s.buffers i).bytes dev num x
                  hx
              ∙ after_write dev num on free x hx d;
          apart =
              update-Apart s f i (clean (s.buffers i)) r
                (keeps-Alone (clean (s.buffers i)) (sets_clean (s.buffers i).flags).2 (refl, refl));
        }

    pub cleaned-Represents : Represents (cleaned ops size s i) f
    cleaned-Represents = elim (Bool-cases (is_dirty (s.buffers i).flags)) [
      | inl d ↦ rw d (write_back-Represents d)
      | inr c ↦ rw c r
    ]

    -- No block is covered by a clean buffer, so it may be taken for another.
    pub emptied-Represents :
        (b : Buffer ops)
        → is_dirty (s.buffers i).flags ≡ false
        → is_valid b.flags ≡ false
        → is_dirty b.flags ≡ false
        → is_used b.flags ≡ ltb 0 b.count
        → Represents (set_buffer ops s i b) f
    emptied-Represents b c nv nd hc =
        set_buffer-Represents s f i b r
          (record {
            placed = λ v. absurd (ground (arith, v, nv));
            cached = λ v. absurd (ground (arith, v, nv));
            dirty_valid = λ d. absurd (ground (arith, d, nd));
            counted = hc;
          })
          (λ j hj ne v. absurd (ground (arith, v, nv)))
          (λ dev num (d, _). absurd (ground (arith, d, c)))
