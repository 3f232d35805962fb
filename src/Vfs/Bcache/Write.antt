-- ===== src/Vfs/Bcache/Write.antt =====
-- The calls that send a buffer to the disk, and reads after them.
use mathlib.Core.Path.{subst}
use multikernel.Common.{
  ℕ, ◌+◌, ◌*◌, ◌^◌, ◌<◌, ◌≡◌, refl, ◌∙◌, sym, inl, inr, Bool, true, false, some, ◌==◌, ==_iff,
  ==_refl, arith, if◌then◌else◌, Bool-cases, update, Status, ok,
}
use multikernel.Vfs.Disk.{Data, Disks}
use multikernel.Vfs.Bcache.Flags.{FlagOps}
use multikernel.Vfs.Bcache.{
  Buffer, Cache, nr_buffers, block_size, set_buffer, cleaned, bread, bwrite2, then_release, bwrite,
  buffer_set_dirty, binit,
}
use multikernel.Vfs.Bcache.Coherent.{Content, Represents, cleaned-Represents}
use multikernel.Vfs.Bcache.Get.{cleaned-clean, cleaned-SameBlocks}
use multikernel.Vfs.Bcache.Read.{Reads, bread-Reads, brelse-Represents}
use multikernel.Vfs.Bcache.Change.{replaced, changed, buffer_set_dirty-Represents}

module _ (ops : FlagOps) (size : ℕ) where
  open ops use {is_used, is_dirty, is_valid, set_dirty, set_clean, sets_dirty, sets_clean, initial}

  not_both : {b : Bool} → b ≡ true → b ≡ false → ⊥
  not_both {b} t f = ground (arith, t, f)

  -- Once a buffer is clean, its disk holds its block.
  sent :
      (s : Cache ops) (f : Content) (i : ℕ)
      → Represents ops size s f
      → i < nr_buffers
      → is_valid (s.buffers i).flags ≡ true
      → (x : ℕ) → x < block_size
      → (cleaned ops size s i).disks (s.buffers i).dev ((s.buffers i).num * block_size + x)
        ≡ f (s.buffers i).dev (s.buffers i).num x
  sent s f i r lt v x hx =
      let r1 = cleaned-Represents ops size s f i r lt in
      r1.stores (s.buffers i).dev (s.buffers i).num ((r.holds i lt).placed v)
        (λ j hj (d, of).
          let was = cleaned-SameBlocks ops size s i j hj ((r1.holds j hj).dirty_valid d) in
          elim (Bool-cases (i == j)) [
            | inl hit ↦ absurd (
                not_both
                  (subst (λ y. is_dirty ((cleaned ops size s i).buffers y).flags ≡ true)
                    (sym ((==_iff i j).0 hit)) d)
                  (cleaned-clean ops size s i).0)
            | inr miss ↦
                r.apart i j lt hj (λ e. ground (arith, miss, e)) v was.0
                  (sym of.0 ∙ sym was.1.0, sym of.1 ∙ sym was.1.1)
          ])
        x hx

  bwrite2-cases :
      (s : Cache ops) (i : ℕ) (v : Bool)
      → is_valid (s.buffers i).flags ≡ v
      → i < nr_buffers
      → 0 < (s.buffers i).count
      → bwrite2 ops size s (some i) ≡ (ok tt, if v then cleaned ops size s i else s)
  unfolding bwrite2
  bwrite2-cases s i true e lt held = rw e (ground arith)
  bwrite2-cases s i false e lt held = rw e (ground arith)

  -- A result without an error, with a cache that represents `f`; if the buffer was valid, the disk
  -- behind it has the block's content.
  abbrev pub Writes : Cache ops → Content → ℕ → Status × Cache ops → Type 0
  Writes s f i out =
      (out.0 ≡ ok tt)
      × Represents ops size out.1 f
      × (is_valid (s.buffers i).flags ≡ true
          → (x : ℕ) → x < block_size
          → out.1.disks (s.buffers i).dev ((s.buffers i).num * block_size + x)
            ≡ f (s.buffers i).dev (s.buffers i).num x)

  -- `bwrite` of a referenced buffer succeeds and changes no content, and once it is done the disk
  -- holds the block of a buffer that was valid.
  pub bwrite-Represents :
      (s : Cache ops) (f : Content) (i : ℕ)
      → Represents ops size s f
      → i < nr_buffers
      → 0 < (s.buffers i).count
      → Writes s f i (bwrite ops size s (some i))
  unfolding bwrite
  bwrite-Represents s f i r lt held = elim (Bool-cases (is_valid (s.buffers i).flags)) [
    | inl v ↦
        let c = cleaned ops size s i in
        let gone =
          brelse-Represents ops size c f i (cleaned-Represents ops size s f i r lt) lt
            (subst (λ n. 0 < n) (sym (cleaned-clean ops size s i).2) held) in
        subst (λ t. Writes s f i (then_release ops size (some i) t))
          (sym (bwrite2-cases s i true v lt held))
          (subst (Writes s f i) (sym gone.0) (refl, gone.1, λ _. sent s f i r lt v))
    | inr n ↦
        let gone = brelse-Represents ops size s f i r lt held in
        subst (λ t. Writes s f i (then_release ops size (some i) t))
          (sym (bwrite2-cases s i false n lt held))
          (subst (Writes s f i) (sym gone.0) (refl, gone.1, λ v. absurd (not_both v n)))
  ]

  -- A cache that was just initialised represents what the disks hold.
  pub binit-Represents :
      (before : ℕ → Data) (disks : Disks)
      → Represents ops size (binit ops before disks) (λ dev num x. disks dev (num * block_size + x))
  unfolding binit
  binit-Represents before disks = record {
    position = ground arith;
    holds = λ i hi. record {
      placed = λ v. absurd (not_both v initial.2);
      cached = λ v. absurd (not_both v initial.2);
      dirty_valid = λ d. absurd (not_both d initial.1);
      counted = initial.0;
    };
    stores = λ _ _ _ _ _ _. refl;
    apart = λ i j hi hj ne v. absurd (not_both v initial.2);
  }

  -- After a client has changed ops size a valid and referenced buffer, marked it as dirty and written it with
  -- `bwrite`, a read of any block returns the changed ops size content: the client's bytes for the buffer's
  -- block, and the content before for another. It runs for ever only as `bread` does.
  pub bwrite-bread :
      (s : Cache ops) (f : Content) (i : ℕ) (bytes : Data) (dev num : ℕ)
      → Represents ops size s f
      → i < nr_buffers
      → is_valid (s.buffers i).flags ≡ true
      → 0 < (s.buffers i).count
      → num * block_size < 2 ^ 32
      → let marked =
          buffer_set_dirty ops
            (set_buffer ops s i (record (s.buffers i) { bytes = bytes }))
            (some i) in
        let written = bwrite ops size marked.1 (some i) in
        (written.0 ≡ ok tt)
        × Reads ops size written.1
            (replaced f (s.buffers i).dev (s.buffers i).num bytes)
            dev
            num
            (bread ops size written.1 dev num)
  bwrite-bread s f i bytes dev num r lt v held small =
      let step = buffer_set_dirty-Represents ops size s f i bytes r lt v in
      subst
        (λ m.
          ((bwrite ops size m.1 (some i)).0 ≡ ok tt)
          × Reads ops size (bwrite ops size m.1 (some i)).1
              (replaced f (s.buffers i).dev (s.buffers i).num bytes) dev num
              (bread ops size (bwrite ops size m.1 (some i)).1 dev num))
        (sym step.0)
        (let out =
            bwrite-Represents _ _ i step.1 lt
              (still s.buffers i (changed ops size (s.buffers i) bytes) held) in
          (out.0, bread-Reads ops size _ _ dev num out.1 small))
    where
      still :
          (t : ℕ → Buffer ops) (i : ℕ) (b : Buffer ops) → 0 < b.count → 0 < (update t i b i).count
      still t i b h = rw (==_refl i) h
