-- ===== src/Vfs/Inode/Valid.antt =====
-- The invariant of the table of i-nodes: which entries are in use, and that no i-node of the disk has
-- two of them. A get and a put keep it.
use multikernel.Common.{
  ℕ, ◌<◌, ◌≡◌, ◌≢◌, refl, sym, ◌∙◌, inl, inr, arith, Bool, true, false, not, Option, none, some,
  pos, ◌==ℤ◌, leb, ◌==◌, ==_refl, Bool-cases, enomem, if-all, update, update-all, find_entry,
  search-none, search-First, ok, err, Status,
}
use multikernel.Bitmap.{Bitmap}
use multikernel.Vfs.Disk.{Disks}
use multikernel.Vfs.Minix.{DInode}
use multikernel.Vfs.Minix.Inode.{minix_inode_free}
use multikernel.Vfs.Minix.Inode.Guards.{minix_inode_free-written}
use multikernel.Vfs.Inode.{
  inodes_table_length, nr_inodes, Inode, Store, is_outside, given_back, give_back, with_count,
  unlinked, freed, removed, drop_last, inode_free,
}
use multikernel.Vfs.Inode.Transfer.{
  loaded, read_into, inode_read, then_free, sync, inode_put, is_inode, get_known, inode_get,
}
use multikernel.Sysv.Resource.{ResourceOps}

module _ (ops : ResourceOps) where
  open ops use {
    Resource, is_used, alloc, release, alloc_within, alloc_unused, alloc_used, release_unused,
  }

  -- An entry is used for as long as it is referred to. Two used entries are of two i-nodes.
  pub record IsValid (dev : ℕ) (t : ℕ → Inode ops) : Type 0 where
    pub counted :
        (i : ℕ) → i < inodes_table_length → is_used (t i).resource ≡ true → 0 < (t i).count
    pub uncounted :
        (i : ℕ) → i < inodes_table_length → is_used (t i).resource ≡ false → (t i).count ≡ 0
    pub on_device :
        (i : ℕ) → i < inodes_table_length → is_used (t i).resource ≡ true → (t i).dev ≡ pos dev
    pub single :
        (i j : ℕ)
        → i < inodes_table_length
        → j < inodes_table_length
        → is_used (t i).resource ≡ true
        → is_used (t j).resource ≡ true
        → (t i).num ≡ (t j).num
        → i ≡ j

  pub record IsUsed (dev : ℕ) (t : ℕ → Inode ops) (i : ℕ) (ip : Inode ops) : Type 0 where
    pub counted : 0 < ip.count
    pub on_device : ip.dev ≡ pos dev
    pub single :
        (j : ℕ)
        → j < inodes_table_length
        → is_used (t j).resource ≡ true
        → (t j).num ≡ ip.num
        → j ≡ i

  -- A new entry that is in use, or is not, keeps the invariant.
  used-IsValid :
      (dev : ℕ) (t : ℕ → Inode ops) (i : ℕ) (ip : Inode ops)
      → IsValid dev t
      → IsUsed dev t i ip
      → is_used ip.resource ≡ true
      → IsValid dev (update t i ip)
  used-IsValid dev t i ip v u e = record {
    counted = λ j lt.
        update-all (λ x. is_used x.resource ≡ true → 0 < x.count) t i ip j (λ _ _. u.counted)
          (λ _. v.counted j lt);
    uncounted = λ j lt.
        update-all (λ x. is_used x.resource ≡ false → x.count ≡ 0) t i ip j (λ _ f. absurd (cc))
          (λ _. v.uncounted j lt);
    on_device = λ j lt.
        update-all (λ x. is_used x.resource ≡ true → x.dev ≡ pos dev) t i ip j (λ _ _. u.on_device)
          (λ _. v.on_device j lt);
    single = λ j k lt lt'.
        update-all
          (λ x.
            is_used x.resource ≡ true
            → is_used (new k).resource ≡ true
            → x.num ≡ (new k).num
            → j ≡ k)
          t i ip j
          (λ ej.
            update-all
              (λ y. is_used ip.resource ≡ true → is_used y.resource ≡ true → ip.num ≡ y.num → j ≡ k)
              t i ip k (λ ek _ _ _. sym ej ∙ ek)
              (λ _ _ uk en. sym ej ∙ sym (u.single k lt' uk (sym en))))
          (λ _.
            update-all
              (λ y.
                is_used (t j).resource ≡ true
                → is_used y.resource ≡ true
                → (t j).num ≡ y.num
                → j ≡ k)
              t i ip k (λ ek uj _ en. u.single j lt uj en ∙ ek)
              (λ _ uj uk en. v.single j k lt lt' uj uk en));
  }
    where
      new : ℕ → Inode ops
      new = update t i ip

  unused-IsValid :
      (dev : ℕ) (t : ℕ → Inode ops) (i : ℕ) (ip : Inode ops)
      → IsValid dev t
      → is_used ip.resource ≡ false
      → ip.count ≡ 0
      → IsValid dev (update t i ip)
  unused-IsValid dev t i ip v unused none_left = record {
    counted = λ j lt.
        update-all (λ x. is_used x.resource ≡ true → 0 < x.count) t i ip j (λ _ e. absurd (cc))
          (λ _. v.counted j lt);
    uncounted = λ j lt.
        update-all (λ x. is_used x.resource ≡ false → x.count ≡ 0) t i ip j (λ _ _. none_left)
          (λ _. v.uncounted j lt);
    on_device = λ j lt.
        update-all (λ x. is_used x.resource ≡ true → x.dev ≡ pos dev) t i ip j (λ _ e. absurd (cc))
          (λ _. v.on_device j lt);
    single = λ j k lt lt'.
        update-all
          (λ x.
            is_used x.resource ≡ true
            → is_used (new k).resource ≡ true
            → x.num ≡ (new k).num
            → j ≡ k)
          t i ip j (λ _ e. absurd (cc))
          (λ _.
            update-all
              (λ y.
                is_used (t j).resource ≡ true
                → is_used y.resource ≡ true
                → (t j).num ≡ y.num
                → j ≡ k)
              t i ip k (λ _ _ e. absurd (cc)) (λ _. v.single j k lt lt'));
  }
    where
      new : ℕ → Inode ops
      new = update t i ip

  -- An entry that changes in its count alone, or in the disk's i-node
  kept-IsUsed :
      (dev : ℕ) (t : ℕ → Inode ops) (i : ℕ) (ip : Inode ops)
      → IsValid dev t
      → i < inodes_table_length
      → is_used (t i).resource ≡ true
      → ip.dev ≡ (t i).dev
      → ip.num ≡ (t i).num
      → 0 < ip.count
      → IsUsed dev t i ip
  kept-IsUsed dev t i ip v lt used ed en c = record {
    counted = c;
    on_device = ed ∙ v.on_device i lt used;
    single = λ j lt' uj e. v.single j i lt' lt uj used (e ∙ en);
  }

  -- What an outcome with a state keeps
  abbrev pub KeepsValid : ℕ → Option (Option ℕ × Store ops) → Type 0
  KeepsValid dev none = Unit {0}
  KeepsValid dev (some (i, s)) = IsValid dev s.inodes

  give_back-KeepsValid :
      (dev num : ℕ) (s : Store ops) → IsValid dev s.inodes → KeepsValid dev (give_back ops s num)
  unfolding give_back
  give_back-KeepsValid dev num s v = by_result (minix_inode_free s.fs_root.super s.fs_root.imap num)
    where
      by_result : (r : Status × Bitmap) → KeepsValid dev (given_back ops s r)
      by_result (ok u, imap) = v
      by_result (err e, imap) = tt

  module _ (size : ℕ) (big : Bool) where
    clash :
        {d n : ℕ} (ip : Inode ops)
        → is_inode ops size big d n ip ≡ false
        → is_used ip.resource ≡ true
        → ip.dev ≡ pos d
        → ip.num ≡ n
        → ⊥
    clash {d} {n} ip miss used ed en = contradiction miss
      where
        contradiction : is_inode ops size big d n ip ≡ false → ⊥
        contradiction = rw (used, ed, en, ==_refl d, ==_refl n) (λ e. absurd (cc))

    pub is_inode-used :
        (d n : ℕ) (ip : Inode ops)
        → is_inode ops size big d n ip ≡ true
        → is_used ip.resource ≡ true
    is_inode-used d n ip e = elim (Bool-cases (is_used ip.resource)) [
      | inl t ↦ t
      | inr f ↦ absurd (ground (arith, e, f))
    ]

    loaded-KeepsValid :
        (s : Store ops) (num i : ℕ) (r : Resource) (out : Status × DInode)
        → IsValid s.fs_root.dev s.inodes
        → ((j : ℕ)
            → j < inodes_table_length
            → is_inode ops size big s.fs_root.dev num (s.inodes j) ≡ false)
        → i < inodes_table_length
        → is_used (s.inodes i).resource ≡ false
        → is_used r ≡ true
        → KeepsValid s.fs_root.dev (loaded ops size big s num i r out)
    loaded-KeepsValid s num i r (ok u, ip) v fresh lt free used =
        used-IsValid s.fs_root.dev s.inodes i _ v
          (record {
            counted = omega arith;
            on_device = refl;
            single =
                λ j lt' uj e. absurd (clash (s.inodes j) (fresh j lt') uj (v.on_device j lt' uj) e);
          })
          used
    loaded-KeepsValid s num i r (err e, ip) v fresh lt free used =
        give_back-KeepsValid s.fs_root.dev num _
          (unused-IsValid s.fs_root.dev s.inodes i _ v (release_unused r) (v.uncounted i lt free))

    read_into-KeepsValid :
        (s : Store ops) (num : ℕ) (o : Option (ℕ × Resource))
        → alloc (λ i. (s.inodes i).resource) inodes_table_length ≡ o
        → IsValid s.fs_root.dev s.inodes
        → ((j : ℕ)
            → j < inodes_table_length
            → is_inode ops size big s.fs_root.dev num (s.inodes j) ≡ false)
        → KeepsValid s.fs_root.dev (read_into ops size big s num o)
    unfolding read_into
    read_into-KeepsValid s num none e v fresh =
        give_back-KeepsValid s.fs_root.dev num (record s { errcode = err enomem }) v
    read_into-KeepsValid s num (some (i, r)) e v fresh =
        loaded-KeepsValid s num i r _ v fresh (alloc_within _ _ i r e) (alloc_unused _ _ i r e)
          (alloc_used _ _ i r e)

    get_known-KeepsValid :
        (s : Store ops) (num : ℕ) (o : Option ℕ)
        → find_entry (is_inode ops size big s.fs_root.dev num) s.inodes inodes_table_length ≡ o
        → IsValid s.fs_root.dev s.inodes
        → KeepsValid s.fs_root.dev (get_known ops size big s num o)
    unfolding get_known inode_read
    get_known-KeepsValid s num none e v = read_into-KeepsValid s num _ refl v (search-none _ _ e)
    get_known-KeepsValid s num (some i) e v =
        let f = search-First _ _ i e in
        let used = is_inode-used s.fs_root.dev num (s.inodes i) f.passes in
        used-IsValid s.fs_root.dev s.inodes i _ v
          (kept-IsUsed s.fs_root.dev s.inodes i _ v f.within used refl refl (omega arith)) used

    inode_get-KeepsValid :
        (s : Store ops) (num : ℕ)
        → IsValid s.fs_root.dev s.inodes
        → KeepsValid s.fs_root.dev (inode_get ops size big s num)
    unfolding inode_get
    inode_get-KeepsValid s num v =
        if-all (KeepsValid s.fs_root.dev) (leb nr_inodes num) _ _ (λ _. v)
          (λ _. get_known-KeepsValid s num _ refl v)

    -- The last reference to an i-node that was written to the disk
    drop_last-IsValid :
        (s : Store ops) (i : ℕ)
        → IsValid s.fs_root.dev s.inodes
        → ((imap : Bitmap) → (minix_inode_free s.fs_root.super imap (s.inodes i).num).0 ≡ ok tt)
        → IsValid s.fs_root.dev (drop_last ops s i).1.inodes
    unfolding drop_last
    drop_last-IsValid s i v frees =
        if-all {A = Status × Store ops} (λ r. IsValid s.fs_root.dev r.1.inodes)
          ((s.inodes i).inode_data.i_nlinks == 1) _ _
          (λ _. removed-IsValid _ (frees s.fs_root.imap)) (λ _. released)
      where
        released :
            IsValid s.fs_root.dev
              (freed ops s i (unlinked ops (with_count ops (s.inodes i) 0))).1.inodes
        released = unused-IsValid s.fs_root.dev s.inodes i _ v (release_unused _) refl

        removed-IsValid :
            (r : Status × Bitmap)
            → r.0 ≡ ok tt
            → IsValid s.fs_root.dev
                (removed ops s i (unlinked ops (with_count ops (s.inodes i) 0)) r).1.inodes
        removed-IsValid (ok u, imap) e = released
        removed-IsValid (err x, imap) e = absurd (cc)

    inode_free-IsValid :
        (s : Store ops) (i : ℕ)
        → IsValid s.fs_root.dev s.inodes
        → ((imap : Bitmap) → (minix_inode_free s.fs_root.super imap (s.inodes i).num).0 ≡ ok tt)
        → IsValid s.fs_root.dev (inode_free ops s i).1.inodes
    unfolding inode_free
    inode_free-IsValid s i v frees =
        if-all P (is_outside ops i) _ _ (λ _. v)
          (λ inside.
            if-all P ((s.inodes i).count == 0) _ _ (λ _. v)
              (λ referred.
                if-all P ((s.inodes i).count == 1) _ _ (λ _. drop_last-IsValid s i v frees)
                  (λ more.
                    let lt = below i inside in
                    let used = is_used_of i lt (ground (arith, referred)) in
                    used-IsValid s.fs_root.dev s.inodes i _ v
                      (kept-IsUsed s.fs_root.dev s.inodes i _ v lt used refl refl
                        (ground (arith, referred, more)))
                      used)))
      where
        P : Status × Store ops → Type 0
        P r = IsValid s.fs_root.dev r.1.inodes

        below : (i : ℕ) → is_outside ops i ≡ false → i < inodes_table_length
        below i e = ground (arith, e)

        is_used_of :
            (i : ℕ)
            → i < inodes_table_length
            → (s.inodes i).count ≢ 0
            → is_used (s.inodes i).resource ≡ true
        is_used_of i lt ne = elim (Bool-cases (is_used (s.inodes i).resource)) [
          | inl t ↦ t
          | inr f ↦ absurd (ne (v.uncounted i lt f))
        ]

    inode_put-IsValid :
        (s : Store ops) (ip : Option ℕ)
        → IsValid s.fs_root.dev s.inodes
        → IsValid s.fs_root.dev (inode_put ops size big s ip).1.inodes
    unfolding inode_put
    inode_put-IsValid s none v = v
    inode_put-IsValid s (some i) v =
        if-all P (is_outside ops i) _ _ (λ _. v)
          (λ _.
            if-all P (not ((s.inodes i).dev ==ℤ pos s.fs_root.dev)) _ _ (λ _. v)
              (λ _. if-all P ((s.inodes i).count == 0) _ _ (λ _. v) (λ _. freed_after _ refl)))
      where
        P : Status × Store ops → Type 0
        P r = IsValid s.fs_root.dev r.1.inodes

        freed_after :
            (o : Status × Disks) → sync ops size big s i ≡ o → P (then_free ops size big s i o)
        freed_after (err e, disks) eq = v
        freed_after (ok u, disks) eq =
            inode_free-IsValid (record s { disks = disks }) i v
              (λ imap. minix_inode_free-written size big _ disks _ _ _ _ imap eq)

    -- In a valid table, a get of an i-node leaves a valid table, whether it finds the i-node, reads it
    -- from the disk or fails without a stop of the server, and so does a put of an i-node.
    pub inode_get_put-KeepsValid :
        (s : Store ops) (num : ℕ) (ip : Option ℕ)
        → IsValid s.fs_root.dev s.inodes
        → KeepsValid s.fs_root.dev (inode_get ops size big s num)
          × IsValid s.fs_root.dev (inode_put ops size big s ip).1.inodes
    inode_get_put-KeepsValid s num ip v = (inode_get-KeepsValid s num v, inode_put-IsValid s ip v)
