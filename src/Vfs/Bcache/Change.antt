-- ===== src/Vfs/Bcache/Change.antt =====
-- A change that a client makes to the content of a buffer.
use mathlib.Core.Path.{subst}
use multikernel.Common.{
  ℕ, ◌+◌, ◌*◌, ◌<◌, ◌≡◌, ◌≢◌, refl, ap, ◌∙◌, sym, inl, inr, true, ◌&&◌, some, ltb, ◌==◌, ==_iff,
  ==_refl, arith, if◌then◌else◌, Bool-cases, update, update-all, ok,
}
use multikernel.Vfs.Disk.{Data}
use multikernel.Vfs.Bcache.Flags.{FlagOps}
use multikernel.Vfs.Bcache.{Buffer, Cache, nr_buffers, block_size, set_buffer, buffer_set_dirty}
use multikernel.Vfs.Bcache.Coherent.{
  Content, OnDisk, IsOf, Covers, Apart, Holds, Represents, update-Apart,
}
use multikernel.Vfs.Bcache.Get.{set_twice}

-- `f` with other bytes in one block
abbrev pub replaced : Content → ℕ → ℕ → Data → Content
replaced f dev num bytes dev' num' x = if dev == dev' && num == num' then bytes x else f dev' num' x

replaced-other :
    (f : Content) (dev num : ℕ) (bytes : Data) (dev' num' x : ℕ)
    → ¬ ((dev ≡ dev') × (num ≡ num'))
    → replaced f dev num bytes dev' num' x ≡ f dev' num' x
replaced-other f dev num bytes dev' num' x other = elim (Bool-cases (dev == dev' && num == num')) [
  | inl same ↦ absurd (
      other
        ((==_iff dev dev').0 (ground (arith, same)), (==_iff num num').0 (ground (arith, same))))
  | inr miss ↦ rw miss refl
]

module _ (ops : FlagOps) (size : ℕ) where
  open ops use {is_used, is_dirty, is_valid, set_dirty, set_clean, sets_dirty, sets_clean, initial}

  -- The buffer after a client's change and the call of `buffer_set_dirty`
  abbrev pub changed : Buffer ops → Data → Buffer ops
  changed b bytes = record b { bytes = bytes; flags = set_dirty b.flags }

  dirties :
      (s : Cache ops) (i : ℕ) (bytes : Data)
      → i < nr_buffers
      → buffer_set_dirty ops (set_buffer ops s i (record (s.buffers i) { bytes = bytes })) (some i)
        ≡ (ok tt, set_buffer ops s i (changed (s.buffers i) bytes))
  unfolding buffer_set_dirty
  dirties s i bytes lt = rw (inside i lt) (
      ap (λ t. (ok tt, t))
        (rw (==_refl i) (
          set_twice ops size s i (record (s.buffers i) { bytes = bytes })
            (changed (s.buffers i) bytes))))
    where
      inside : (i : ℕ) → i < nr_buffers → ltb i nr_buffers ≡ true
      inside i lt = ground arith

  module _ (s : Cache ops) (f : Content) (i : ℕ) (bytes : Data) (r : Represents ops size s f)
      (lt : i < nr_buffers) (valid : is_valid (s.buffers i).flags ≡ true) where
    changed-Holds :
        Holds ops size
          (replaced f (s.buffers i).dev (s.buffers i).num bytes)
          (changed (s.buffers i) bytes)
    changed-Holds = record {
      placed = λ _. (r.holds i lt).placed valid;
      cached = λ _ x _. rw (==_refl (s.buffers i).dev, ==_refl (s.buffers i).num) refl;
      dirty_valid = λ _. (sets_dirty (s.buffers i).flags).2 ∙ valid;
      counted = (sets_dirty (s.buffers i).flags).0 ∙ (r.holds i lt).counted;
    }

    others-Holds :
        (j : ℕ)
        → j < nr_buffers
        → j ≢ i
        → Holds ops size (replaced f (s.buffers i).dev (s.buffers i).num bytes) (s.buffers j)
    others-Holds j hj ne =
        let h = r.holds j hj in
        record {
          placed = h.placed;
          cached = λ v x hx.
              h.cached v x hx
              ∙ sym (
                  replaced-other f (s.buffers i).dev (s.buffers i).num bytes (s.buffers j).dev
                    (s.buffers j).num x (r.apart i j lt hj (λ e. ne (sym e)) valid v));
          dirty_valid = h.dirty_valid;
          counted = h.counted;
        }

    changed-Apart :
        (j : ℕ)
        → j < nr_buffers
        → j ≢ i
        → Apart ops size (changed (s.buffers i) bytes) (s.buffers j)
    changed-Apart j hj ne _ v = r.apart i j lt hj (λ e. ne (sym e)) valid v

    -- A block that no dirty buffer covers is another, and was covered by none before.
    stores_other :
        (dev num : ℕ)
        → OnDisk size dev num
        → ((j : ℕ)
            → j < nr_buffers
            → ¬ Covers ops size (update s.buffers i (changed (s.buffers i) bytes) j) dev num)
        → (x : ℕ) → x < block_size
        → s.disks dev (num * block_size + x)
          ≡ replaced f (s.buffers i).dev (s.buffers i).num bytes dev num x
    stores_other dev num on free x hx =
        let uncovered = λ (of : IsOf ops size (s.buffers i) dev num). free i lt (
          subst (λ b. Covers ops size b dev num)
            (sym (updated (s.buffers) i (changed (s.buffers i) bytes)))
            ((sets_dirty (s.buffers i).flags).1, of)) in
        r.stores dev num on
          (λ j hj c. free j hj (
            update-all (λ a. Covers ops size a dev num) s.buffers i (changed (s.buffers i) bytes) j
              (λ e.
                absurd (uncovered (subst (λ y. IsOf ops size (s.buffers y) dev num) (sym e) c.1)))
              (λ _. c)))
          x hx
        ∙ sym (replaced-other f (s.buffers i).dev (s.buffers i).num bytes dev num x uncovered)
      where
        updated : (t : ℕ → Buffer ops) (i : ℕ) (b : Buffer ops) → update t i b i ≡ b
        updated t i b = rw (==_refl i) refl

    -- What a client writes into a valid buffer and marks as dirty is the content of its block from
    -- then on, and no other block's content changes.
    pub buffer_set_dirty-Represents :
        let s' = set_buffer ops s i (changed (s.buffers i) bytes) in
        (buffer_set_dirty ops (set_buffer ops s i (record (s.buffers i) { bytes = bytes })) (some i)
          ≡ (ok tt, s'))
        × Represents ops size s' (replaced f (s.buffers i).dev (s.buffers i).num bytes)
    buffer_set_dirty-Represents = (
      dirties s i bytes lt,
      record {
        position = r.position;
        holds = λ j hj.
            update-all (Holds ops size (replaced f (s.buffers i).dev (s.buffers i).num bytes))
              s.buffers i (changed (s.buffers i) bytes) j (λ _. changed-Holds)
              (λ ne. others-Holds j hj ne);
        stores = stores_other;
        apart = update-Apart ops size s f i (changed (s.buffers i) bytes) r changed-Apart;
      },
    )
