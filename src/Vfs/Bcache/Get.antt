-- ===== src/Vfs/Bcache/Get.antt =====
-- A search for a victim, and for a block's buffer, changes no content.
use mathlib.Core.Path.{subst}
use multikernel.Common.{
  ℕ, ◌+◌, ◌%◌, ◌<◌, ◌≡◌, refl, ap, ◌∙◌, sym, fun_ext, ◌⊎◌, inl, inr, true, false, Option, none,
  some, ltb, ◌==◌, ==_iff, ==_refl, arith, Bool-cases, update-all, NoneBelow, search-cases,
}
use multikernel.Vfs.Bcache.Flags.{FlagOps}
use multikernel.Vfs.Bcache.{
  Buffer, Cache, nr_buffers, set_buffer, write_back, cleaned, invalidated, taken, is_block,
  is_spare, evict, getblk, get_found, taken_over,
}
use multikernel.Vfs.Bcache.Evict.{search_victim-terminates}
use multikernel.Vfs.Bcache.Coherent.{
  Content, IsOf, Holds, Represents, set_buffer-Represents, cleaned-Represents, emptied-Represents,
}

module _ (ops : FlagOps) (size : ℕ) where
  open ops use {
    is_used, is_dirty, is_valid, set_used, set_unused, set_clean, set_invalid, set_valid, sets_used,
    sets_unused, sets_clean, sets_invalid, sets_valid,
  }

  -- A buffer that is free for another block
  abbrev IsEmptied : Buffer ops → Type 0
  IsEmptied b =
      (is_valid b.flags ≡ false)
      × (is_dirty b.flags ≡ false)
      × (is_used b.flags ≡ ltb 0 b.count)
      × (is_used b.flags ≡ false)

  -- Each buffer that is valid was so, and is of the same block.
  abbrev SameBlocks : Cache ops → Cache ops → Type 0
  SameBlocks s s' =
      (j : ℕ)
      → j < nr_buffers
      → is_valid (s'.buffers j).flags ≡ true
      → (is_valid (s.buffers j).flags ≡ true)
        × IsOf ops size (s.buffers j) (s'.buffers j).dev (s'.buffers j).num

  pub set_twice :
      (s : Cache ops) (i : ℕ) (a b : Buffer ops)
      → set_buffer ops (set_buffer ops s i a) i b ≡ set_buffer ops s i b
  set_twice s i a b =
      ap (λ t. record s { buffers = t })
        (fun_ext
          (λ j. elim (Bool-cases (i == j)) [ inl hit ↦ rw hit refl | inr miss ↦ rw miss refl ]))

  -- `cleaned` at buffer `i`, whatever its disk
  pub cleaned-clean :
      (s : Cache ops) (i : ℕ)
      → (is_dirty ((cleaned ops size s i).buffers i).flags ≡ false)
        × (is_used ((cleaned ops size s i).buffers i).flags ≡ is_used (s.buffers i).flags)
        × (((cleaned ops size s i).buffers i).count ≡ (s.buffers i).count)
  unfolding write_back
  cleaned-clean s i = elim (Bool-cases (is_dirty (s.buffers i).flags)) [
    | inl d ↦
        rw (d, ==_refl i)
          ((sets_clean (s.buffers i).flags).1, (sets_clean (s.buffers i).flags).0, refl)
    | inr c ↦ rw c (c, refl, refl)
  ]

  pub cleaned-SameBlocks : (s : Cache ops) (i : ℕ) → SameBlocks s (cleaned ops size s i)
  unfolding write_back
  cleaned-SameBlocks s i j hj = elim (Bool-cases (is_dirty (s.buffers i).flags)) [
    | inl d ↦ rw d (
        update-all
          (λ a.
            is_valid a.flags ≡ true
            → (is_valid (s.buffers j).flags ≡ true) × IsOf ops size (s.buffers j) a.dev a.num)
          s.buffers i (record (s.buffers i) { flags = set_clean (s.buffers i).flags }) j
          (λ e.
            subst
              (λ y.
                is_valid (set_clean (s.buffers i).flags) ≡ true
                → (is_valid (s.buffers y).flags ≡ true)
                  × IsOf ops size (s.buffers y) (s.buffers i).dev (s.buffers i).num)
              e (λ v. (sym (sets_clean (s.buffers i).flags).2 ∙ v, (refl, refl))))
          (λ _ v. (v, (refl, refl))))
    | inr c ↦ rw c (λ v. (v, (refl, refl)))
  ]

  module _ (s : Cache ops) (f : Content) (r : Represents ops size s f) where
    -- The victim is free for another block, and no block's content has changed.
    victim-Represents :
        (i : ℕ)
        → i < nr_buffers
        → is_used (s.buffers i).flags ≡ false
        → let s' = invalidated ops size (cleaned ops size s i) i in
          Represents ops size s' f × IsEmptied (s'.buffers i) × SameBlocks s s'
    victim-Represents i lt unused =
        let t = cleaned ops size s i in
        let c = cleaned-clean s i in
        let b = record (t.buffers i) { flags = set_invalid (t.buffers i).flags } in
        let inv = sets_invalid (t.buffers i).flags in
        let rt = cleaned-Represents ops size s f i r lt in
        let count = inv.0 ∙ (rt.holds i lt).counted in
        (
          emptied-Represents ops size t f i rt lt b c.0 inv.2 (inv.1 ∙ c.0) count,
          rw (==_refl i) (inv.2, inv.1 ∙ c.0, count, inv.0 ∙ c.1 ∙ unused),
          λ j hj.
              update-all
                (λ a.
                  is_valid a.flags ≡ true
                  → (is_valid (s.buffers j).flags ≡ true) × IsOf ops size (s.buffers j) a.dev a.num)
                t.buffers i b j (λ _ v. absurd (ground (arith, v, inv)))
                (λ _. cleaned-SameBlocks s i j hj),
        )

  -- What `evict` returns: nothing, for ever; no buffer, and then no buffer but one is unused; or a
  -- buffer that is free, in a cache of the same content.
  abbrev Evicts : Cache ops → Content → Option (Option ℕ × Cache ops) → Type 0
  Evicts s f none = (s.k ≡ 0) × ((j : ℕ) → j < nr_buffers → is_spare ops (s.buffers j) ≡ false)
  Evicts s f (some (none, s')) = Represents ops size s' f
  Evicts s f (some (some i, s')) =
      (i < nr_buffers) × Represents ops size s' f × IsEmptied (s'.buffers i) × SameBlocks s s'

  advance-Represents :
      (s : Cache ops) (f : Content)
      → Represents ops size s f
      → Represents ops size (record s { k = (s.k + 1) % nr_buffers }) f
  advance-Represents s f r = record {
    position = omega arith;
    holds = r.holds;
    stores = r.stores;
    apart = r.apart;
  }

  evict-Evicts :
      (s : Cache ops) (f : Content) → Represents ops size s f → Evicts s f (evict ops size s)
  unfolding evict
  evict-Evicts s f r = elim (search_victim-terminates ops s.buffers s.k r.position) [
    | inl (start, busy, never) ↦ rw (never nr_buffers) (start, busy)
    | inr (none, e, all) ↦ rw e (advance-Represents s f r)
    | inr (some i, e, (lt, unused)) ↦ rw e (
        let (a, b, c) =
          victim-Represents (record s { k = (s.k + 1) % nr_buffers }) f (advance-Represents s f r) i
            lt unused in
        (lt, a, b, c))
  ]

  -- No valid buffer is of the block.
  abbrev pub Missing : Cache ops → ℕ → ℕ → Type 0
  Missing s dev num =
      (j : ℕ)
      → j < nr_buffers
      → is_valid (s.buffers j).flags ≡ true
      → ¬ IsOf ops size (s.buffers j) dev num

  -- What `getblk` returns: as `evict`; or a buffer that is referenced and of the block, which is
  -- valid or clean, and in the second case no other buffer is of the block.
  abbrev pub Gets : Cache ops → Content → ℕ → ℕ → Option (Option ℕ × Cache ops) → Type 0
  Gets s f dev num none =
      (s.k ≡ 0) × ((j : ℕ) → j < nr_buffers → is_spare ops (s.buffers j) ≡ false)
  Gets s f dev num (some (none, s')) = Represents ops size s' f
  Gets s f dev num (some (some i, s')) =
      (i < nr_buffers)
      × Represents ops size s' f
      × IsOf ops size (s'.buffers i) dev num
      × (0 < (s'.buffers i).count)
      × ((is_valid (s'.buffers i).flags ≡ true)
          ⊎ ((is_valid (s'.buffers i).flags ≡ false)
              × (is_dirty (s'.buffers i).flags ≡ false)
              × Missing s' dev num))

  abbrev taken_by : Buffer ops → Buffer ops
  taken_by b = record b { count = b.count + 1; flags = set_used b.flags }

  taken_by-Holds :
      (f : Content) (b : Buffer ops) → Holds ops size f b → Holds ops size f (taken_by b)
  taken_by-Holds f b h = record {
    placed = λ v. h.placed (sym (sets_used b.flags).2 ∙ v);
    cached = λ v. h.cached (sym (sets_used b.flags).2 ∙ v);
    dirty_valid = λ d. (sets_used b.flags).2 ∙ h.dirty_valid (sym (sets_used b.flags).1 ∙ d);
    counted = (sets_used b.flags).0 ∙ ground arith;
  }

  hit-Gets :
      (s : Cache ops) (f : Content) (dev num i : ℕ)
      → Represents ops size s f
      → i < nr_buffers
      → is_block ops size dev num (s.buffers i) ≡ true
      → Gets s f dev num (some (some i, taken ops size s i))
  hit-Gets s f dev num i r lt e =
      let b = s.buffers i in
      let used = sets_used b.flags in
      (
        lt,
        set_buffer-Represents ops size s f i (taken_by b) r (taken_by-Holds f b (r.holds i lt))
            (λ j hj ne vb vj same. r.apart i j lt hj (λ h. ne (sym h)) (sym used.2 ∙ vb) vj same)
            (λ dev num (d, same). (used.1 ∙ d, same)),
        rw (==_refl i)
            ((==_iff b.dev dev).0 (ground (arith, e)), (==_iff b.num num).0 (ground (arith, e))),
        rw (==_refl i) (omega arith),
        inl (rw (==_refl i) (used.2 ∙ ground (arith, e))),
      )

  -- The buffer of a victim, for its new block
  abbrev claimed : Cache ops → ℕ → ℕ → ℕ → Buffer ops
  claimed s i dev num = taken_by (record (s.buffers i) { dev = dev; num = num })

  taken_over_once :
      (s : Cache ops) (i dev num : ℕ)
      → taken ops size (set_buffer ops s i (record (s.buffers i) { dev = dev; num = num })) i
        ≡ set_buffer ops s i (claimed s i dev num)
  taken_over_once s i dev num =
      ap (λ t. record s { buffers = t })
        (fun_ext (λ j. elim (Bool-cases (i == j)) [
          | inl hit ↦ rw (hit, ==_refl i) refl
          | inr miss ↦ rw miss refl
        ]))

  miss-Gets :
      (s : Cache ops) (f : Content) (dev num : ℕ) (out : Option (Option ℕ × Cache ops))
      → NoneBelow (λ j. is_block ops size dev num (s.buffers j)) nr_buffers
      → Evicts s f out
      → Gets s f dev num (taken_over ops size dev num out)
  miss-Gets s f dev num none absent h = h
  miss-Gets s f dev num (some (none, s')) absent h = h
  miss-Gets s f dev num (some (some i, s')) absent (lt, r, (nv, nd, count, unused), same) =
      subst (λ t. Gets s f dev num (some (some i, t))) (sym (taken_over_once s' i dev num))
        (let b = claimed s' i dev num in
          let used = sets_used (s'.buffers i).flags in
          (
            lt,
            emptied-Represents ops size s' f i r lt b nd (used.2 ∙ nv) (used.1 ∙ nd)
                (used.0 ∙ ground arith),
            rw (==_refl i) (refl, refl),
            rw (==_refl i) (omega arith),
            inr (
              rw (==_refl i) (used.2 ∙ nv),
              rw (==_refl i) (used.1 ∙ nd),
              λ j hj.
                  update-all (λ a. is_valid a.flags ≡ true → ¬ IsOf ops size a dev num) s'.buffers i
                    b j (λ _ v. absurd (ground (arith, v, used, nv)))
                    (λ _ v of. ground (arith, same j hj v, of, absent j hj)),
            ),
          ))

  pub getblk-Gets :
      (s : Cache ops) (f : Content) (dev num : ℕ)
      → Represents ops size s f
      → Gets s f dev num (getblk ops size s dev num)
  unfolding getblk get_found
  getblk-Gets s f dev num r =
      elim (search-cases (λ j. is_block ops size dev num (s.buffers j)) nr_buffers) [
        | inl (e, absent) ↦
            rw e (miss-Gets s f dev num (evict ops size s) absent (evict-Evicts s f r))
        | inr (i, e, h) ↦ rw e (hit-Gets s f dev num i r h.within h.passes)
      ]
