-- ===== src/Vfs/Inode/Balance.antt =====
-- A get of an i-node that is in memory, and the put that follows it.
use mathlib.Core.Path.{subst}
use multikernel.Common.{
  ℕ, ◌+◌, ◌-◌, ◌<◌, ◌≡◌, refl, sym, ap, ◌∙◌, inl, inr, arith, Bool, false, not, some, pos, ◌==ℤ◌,
  leb, ◌==◌, ==_iff, ==_refl, Bool-cases, if_inv, if_false, if-all, First, search-First, some_inj,
  update, find_entry, ok, err, Status,
}
use multikernel.Vfs.Disk.{Disks}
use multikernel.Vfs.Inode.{
  inodes_table_length, nr_inodes, Store, is_outside, with_count, set_inode, inode_free,
}
use multikernel.Vfs.Inode.Transfer.{then_free, inode_put, is_inode, get_known, inode_get}
use multikernel.Vfs.Inode.Valid.{IsValid, is_inode-used}
use multikernel.Sysv.Resource.{ResourceOps}

module _ (ops : ResourceOps) (size : ℕ) (big : Bool) where
  abbrev more : Store ops → ℕ → Store ops
  more s i = set_inode ops s i (with_count ops (s.inodes i) ((s.inodes i).count + 1))

  inode_free_many :
      (s : Store ops) (i : ℕ)
      → is_outside ops i ≡ false
      → 1 < (s.inodes i).count
      → inode_free ops s i
        ≡ (ok tt, set_inode ops s i (with_count ops (s.inodes i) ((s.inodes i).count - 1)))
  unfolding inode_free
  inode_free_many s i inside lt =
      if_false _ _ _ inside
      ∙ if_false ((s.inodes i).count == 0) _ _ (ground (arith, lt))
      ∙ if_false ((s.inodes i).count == 1) _ _ (ground (arith, lt))

  more_at :
      (s : Store ops) (i : ℕ)
      → (more s i).inodes i ≡ with_count ops (s.inodes i) ((s.inodes i).count + 1)
  more_at s i = rw (==_refl i) refl

  one_less : (n : ℕ) → n + 1 - 1 ≡ n
  one_less n = omega arith

  back_at :
      (s : Store ops) (i j : ℕ)
      → update
          (more s i).inodes
          i
          (with_count ops ((more s i).inodes i) (((more s i).inodes i).count - 1))
          j
        ≡ s.inodes j
  back_at s i j = elim (Bool-cases (i == j)) [
    | inl hit ↦ rw hit (
        ap (λ x. with_count ops x (x.count - 1)) (more_at s i)
        ∙ ap (with_count ops (s.inodes i)) (one_less (s.inodes i).count)
        ∙ ap s.inodes ((==_iff i j).0 hit))
    | inr miss ↦ rw miss refl
  ]

  -- The put of an i-node that has a further reference
  put_more :
      (s : Store ops) (i : ℕ) (o : Status × Disks)
      → is_outside ops i ≡ false
      → 0 < (s.inodes i).count
      → (then_free ops size big (more s i) i o).0 ≡ ok tt
      → (j : ℕ) → (then_free ops size big (more s i) i o).1.inodes j ≡ s.inodes j
  put_more s i (err e, disks) inside lt done = absurd (cc)
  put_more s i (ok u, disks) inside lt done = λ j.
      ap (λ r. r.1.inodes j)
        (inode_free_many (record (more s i) { disks = disks }) i inside
          (rw (more_at s i) (omega arith)))
      ∙ back_at s i j

  known :
      (s s' : Store ops) (num i : ℕ)
      → find_entry (is_inode ops size big s.fs_root.dev num) s.inodes inodes_table_length ≡ some i
      → inode_get ops size big s num ≡ some (some i, s')
      → s' ≡ more s i
  unfolding inode_get get_known
  known s s' num i found e = elim (if_inv (leb nr_inodes num) _ _ e) [
    | inl (_, bad) ↦ absurd (cc)
    | inr (_, e') ↦ got found e'
  ]
    where
      got :
          find_entry (is_inode ops size big s.fs_root.dev num) s.inodes inodes_table_length ≡ some i
          → get_known ops size big s num
              (find_entry (is_inode ops size big s.fs_root.dev num) s.inodes inodes_table_length)
            ≡ some (some i, s')
          → s' ≡ more s i
      got f = rw f (λ e. ap (λ p. p.1) (sym (some_inj _ _ e)))

  -- Where the table is valid and has the i-node, a get of it and then a put that succeeds leave each
  -- entry of the table as it was.
  pub inode_get-put :
      (s s' : Store ops) (num i : ℕ)
      → IsValid ops s.fs_root.dev s.inodes
      → find_entry (is_inode ops size big s.fs_root.dev num) s.inodes inodes_table_length ≡ some i
      → inode_get ops size big s num ≡ some (some i, s')
      → (inode_put ops size big s' (some i)).0 ≡ ok tt
      → (j : ℕ) → (inode_put ops size big s' (some i)).1.inodes j ≡ s.inodes j
  unfolding inode_put
  inode_get-put s s' num i v found e =
      subst
        (λ x.
          (inode_put ops size big x (some i)).0 ≡ ok tt
          → (j : ℕ) → (inode_put ops size big x (some i)).1.inodes j ≡ s.inodes j)
        (sym (known s s' num i found e)) put
    where
      f : First (λ k. is_inode ops size big s.fs_root.dev num (s.inodes k)) inodes_table_length i
      f = search-First _ _ i found

      inside : is_outside ops i ≡ false
      inside = ground (arith, f.within)

      referred : 0 < (s.inodes i).count
      referred =
          v.counted i f.within (is_inode-used ops size big s.fs_root.dev num (s.inodes i) f.passes)

      Back : Status × Store ops → Type 0
      Back r = r.0 ≡ ok tt → (j : ℕ) → r.1.inodes j ≡ s.inodes j

      put : Back (inode_put ops size big (more s i) (some i))
      put =
          if-all Back (is_outside ops i) _ _ (λ _ bad. absurd (cc))
            (λ _.
              if-all Back (not (((more s i).inodes i).dev ==ℤ pos s.fs_root.dev)) _ _
                (λ _ bad. absurd (cc))
                (λ _.
                  if-all Back (((more s i).inodes i).count == 0) _ _ (λ _ bad. absurd (cc))
                    (λ _. put_more s i _ inside referred)))
