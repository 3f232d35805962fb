-- ===== src/Vfs/Minix/Dirent/Place.antt =====
-- Where in a directory the search puts a new entry.
use mathlib.Core.Path.{subst}
use multikernel.Common.{
  ℕ, zero, suc, ◌+◌, ◌*◌, ◌%◌, ◌^◌, ◌<◌, ◌≡◌, refl, ◌⊎◌, inl, inr, arith, Bool, true, false, Option,
  none, some, pos, leb, ◌==◌, if-all, some_inj, Result, ok, err,
}
use multikernel.Vfs.Disk.{Data}
use multikernel.Vfs.Minix.{Superblock, minix_block_size, minix_block_null, minix_inode_null}
use multikernel.Vfs.Minix.Bytes.{half_at}
use multikernel.Vfs.Minix.Block.{FileMap, minix_block_map}
use multikernel.Vfs.Minix.Dirent.{
  Name, Cursor, Searched, found, duplicate, missing, stopped, running, starts_as, minix_name_max,
  sizeof_d_dirent, entries_per_block, moved, examine, in_block, search_round, repeat, search_loop,
  search_end, placed, grown, new_entry,
}

module _ (size : ℕ) (big : Bool) (dev : ℕ) (sb : Superblock) (before : Data) where
  module _ (name : Name) (create : Bool) (nentries : ℕ) where
    -- A free entry that the search has seen is one of the directory's.
    abbrev Below : Option ℕ → Type 0
    Below none = Unit {0}
    Below (some e) = e < nentries

    abbrev pub EndsBelow : Searched → Type 0
    EndsBelow (found off m) = create ≡ false
    EndsBelow (duplicate m) = Unit {0}
    EndsBelow (missing entry m) = Below entry
    EndsBelow stopped = Unit {0}
    EndsBelow running = Unit {0}

    abbrev RoundBelow : Cursor ⊎ Searched → Type 0
    RoundBelow (inl c) = Below c.entry
    RoundBelow (inr r) = EndsBelow r

    moved-Below :
        (c : Cursor) (o : Option (ℕ × FileMap))
        → Below c.entry
        → RoundBelow (moved size big dev sb before name create nentries c o)
    moved-Below c none h = tt
    moved-Below c (some (blk, m)) h = h

    examine-Below :
        (c : Cursor) (base off : ℕ) (o : Option Data)
        → Below c.entry
        → c.i < nentries
        → RoundBelow (examine size big dev sb before name create nentries c base off o)
    unfolding examine
    examine-Below c base off none h lt = tt
    examine-Below c base off (some d) h lt =
        if-all RoundBelow (half_at big d 0 == minix_inode_null) _ _ (λ _. lt)
          (λ _.
            if-all RoundBelow (starts_as minix_name_max name d 2) _ _
              (λ _. if-all RoundBelow create _ _ (λ _. tt) (λ f. f)) (λ _. h))

    in_block-Below :
        (c : Cursor) (base : Option ℕ)
        → Below c.entry
        → c.i < nentries
        → RoundBelow (in_block size big dev sb before name create nentries c base)
    unfolding in_block
    in_block-Below c none h lt =
        let at = c.blk * minix_block_size in
        examine-Below (record c { base = some at; off = 0 }) at 0 _ h lt
    in_block-Below c (some base) h lt =
        if-all RoundBelow (leb minix_block_size c.off) _ _
          (λ t. moved-Below (record c { base = none }) _ h) (λ _. examine-Below c base c.off _ h lt)

    search_round-Below :
        (c : Cursor)
        → Below c.entry
        → RoundBelow (search_round size big dev sb before name create nentries c)
    unfolding search_round
    search_round-Below c h =
        if-all RoundBelow (leb nentries c.i) _ _ (λ _. h)
          (λ f.
            if-all RoundBelow (c.blk == minix_block_null) _ _
              (λ _. moved-Below (record c { i = c.i + entries_per_block }) _ h)
              (λ _. in_block-Below c c.base h (ground (arith, f))))

    repeat-Below :
        (loop : Cursor → Searched) (r : Cursor ⊎ Searched)
        → RoundBelow r
        → ((c : Cursor) → Below c.entry → EndsBelow (loop c))
        → EndsBelow (repeat size big dev sb before name create nentries loop r)
    repeat-Below loop (inl c) h go = go c h
    repeat-Below loop (inr r) h go = h

    pub search_loop-Below :
        (fuel : ℕ) (c : Cursor)
        → Below c.entry
        → EndsBelow (search_loop size big dev sb before name create nentries fuel c)
    unfolding search_loop
    search_loop-Below zero c h = tt
    search_loop-Below (suc fuel) c h =
        repeat-Below _ (search_round size big dev sb before name create nentries c)
          (search_round-Below c h) (search_loop-Below fuel)

  -- The place of entry `index` of a directory, in the block that its map gives for the entry's
  -- offset: an entry behind the last one, by which the directory grows, or one of the directory's.
  pub record IsPlace (nentries : ℕ) (m0 m1 : FileMap) (off : ℕ) : Type 0 where
    pub index : ℕ
    pub blk : ℕ
    pub mapped : FileMap
    pub create : Bool
    pub is_mapped :
        minix_block_map size big sb before m0 (pos (index * sizeof_d_dirent)) create
        ≡ some (blk, mapped)
    pub at : off ≡ blk * minix_block_size + index % entries_per_block * sizeof_d_dirent
    pub disks : m1.disks ≡ mapped.disks
    pub grows :
        ((index ≡ nentries)
          × (create ≡ true)
          × (m1.inode.i_size ≡ (mapped.inode.i_size + sizeof_d_dirent) % 2 ^ 32))
        ⊎ ((index < nentries) × (m1 ≡ mapped))

  module _ (name : Name) (nentries : ℕ) (m1 : FileMap) (off : ℕ) where
    abbrev offset_of : Result ℕ × FileMap → ℕ
    offset_of (ok n, m) = n
    offset_of (err e, m) = 0

    abbrev map_of : Result ℕ × FileMap → FileMap
    map_of (r, m) = m

    new_entry-IsPlace :
        (m0 : FileMap) (entry : Option ℕ)
        → Below name true nentries entry
        → new_entry size big dev sb before name true nentries entry m0 ≡ some (ok off, m1)
        → IsPlace nentries m0 m1 off
    unfolding new_entry
    new_entry-IsPlace m0 none lt e =
        behind (minix_block_map size big sb before m0 (pos (nentries * sizeof_d_dirent)) true) refl
          e
      where
        behind :
            (o : Option (ℕ × FileMap))
            → minix_block_map size big sb before m0 (pos (nentries * sizeof_d_dirent)) true ≡ o
            → placed size big dev sb before name true nentries nentries
                (grown size big dev sb before name true nentries o)
              ≡ some (ok off, m1)
            → IsPlace nentries m0 m1 off
        behind none em e = absurd (cc)
        behind (some (blk, m)) em e =
            subst (λ p. IsPlace nentries m0 (map_of p) (offset_of p)) (some_inj _ _ e)
              (record {
                index = nentries;
                blk = blk;
                mapped = m;
                create = true;
                is_mapped = em;
                at = refl;
                disks = refl;
                grows = inl (refl, refl, refl);
              })
    new_entry-IsPlace m0 (some entry) lt e =
        among (minix_block_map size big sb before m0 (pos (entry * sizeof_d_dirent)) false) refl e
      where
        among :
            (o : Option (ℕ × FileMap))
            → minix_block_map size big sb before m0 (pos (entry * sizeof_d_dirent)) false ≡ o
            → placed size big dev sb before name true nentries entry o ≡ some (ok off, m1)
            → IsPlace nentries m0 m1 off
        among none em e = absurd (cc)
        among (some (blk, m)) em e =
            subst (λ p. IsPlace nentries m0 (map_of p) (offset_of p)) (some_inj _ _ e)
              (record {
                index = entry;
                blk = blk;
                mapped = m;
                create = false;
                is_mapped = em;
                at = refl;
                disks = refl;
                grows = inr (lt, refl);
              })

    -- What a search that creates gives: its loop has come to the end without the name, and the offset
    -- is that of a place of the directory.
    pub search_end-IsPlace :
        (r : Searched)
        → EndsBelow name true nentries r
        → search_end size big dev sb before name true nentries r ≡ some (ok off, m1)
        → (m : FileMap) × (entry : Option ℕ) × (r ≡ missing entry m) × IsPlace nentries m m1 off
    unfolding search_end
    search_end-IsPlace (found o m) h e = absurd (cc)
    search_end-IsPlace (missing entry m) h e = (m, entry, refl, new_entry-IsPlace m entry h e)
    search_end-IsPlace (duplicate m) h e = absurd (cc)
    search_end-IsPlace stopped h e = absurd (cc)
    search_end-IsPlace running h e = absurd (cc)
