-- ===== src/Vfs/Minix/Dirent/Search.antt =====
-- The search of a directory: its loop ends, and what it finds is an entry of that name.
use multikernel.Common.{
  ℕ, zero, suc, ◌+◌, ◌-◌, ◌*◌, ◌/◌, ◌<◌, ◌≤◌, ◌≡◌, ◌≢◌, refl, ap, ◌⊎◌, inl, inr, arith, Bool, true,
  false, not, Option, none, some, leb, ltb, ◌==◌, if◌then◌else◌, Bool-cases, if-all, if_inv,
  some_inj, length, Result, ok, err,
}
use mathlib.Core.Path.{subst}
use multikernel.Vfs.Mode.{s_isdir}
use multikernel.Vfs.Disk.{Data, Disks}
use multikernel.Vfs.Minix.{Superblock, minix_block_size, minix_block_null, minix_inode_null}
use multikernel.Vfs.Minix.Bytes.{half_at}
use multikernel.Vfs.Minix.Block.{FileMap}
use multikernel.Vfs.Minix.Dirent.{
  Name, Cursor, Searched, found, duplicate, missing, stopped, running, starts_as, minix_name_max,
  sizeof_d_dirent, entries_per_block, entry_at, moved, advance, examine, in_block, search_round,
  repeat, search_loop, search_fuel, search_end, nr_entries, start, minix_dirent_search,
}

-- Whether the next round only leaves the block
abbrev pub at_end : ℕ → Option ℕ → ℕ
at_end off none = 0
at_end off (some base) = if leb minix_block_size off then 1 else 0

at_end_le : (off : ℕ) (base : Option ℕ) → at_end off base ≤ 1
at_end_le off none = omega arith
at_end_le off (some base) = elim (Bool-cases (leb minix_block_size off)) [
  | inl t ↦ rw t (omega arith)
  | inr f ↦ rw f (omega arith)
]

-- The rounds that are left: two for each entry, and one to leave a block
abbrev pub weight : ℕ → Cursor → ℕ
weight nentries c = (nentries - c.i) * 2 + at_end c.off c.base

plus_zero : (n : ℕ) → n + 0 ≡ n
plus_zero n = omega arith

module _ (size : ℕ) (big : Bool) (dev : ℕ) (sb : Superblock) (before : Data) where
  module _ (name : Name) (create : Bool) (nentries : ℕ) where
    -- What a round does: it ends the loop, or lowers the weight.
    abbrev Lowers : ℕ → Cursor ⊎ Searched → Type 0
    Lowers w (inl c) = weight nentries c < w
    Lowers w (inr r) = r ≢ running

    moved-Lowers :
        (w : ℕ) (c : Cursor) (o : Option (ℕ × FileMap))
        → weight nentries c < w
        → Lowers w (moved size big dev sb before name create nentries c o)
    moved-Lowers w c none lt = λ e. absurd (cc)
    moved-Lowers w c (some (blk, m)) lt = lt

    advance_lowers :
        (c : Cursor) (w off : ℕ) (entry : Option ℕ)
        → c.i < nentries
        → (nentries - c.i) * 2 ≤ w
        → weight nentries (advance size big dev sb before name create nentries c off entry) < w
    advance_lowers c w off entry lt le = omega (arith, at_end_le (off + sizeof_d_dirent) c.base)

    examine-Lowers :
        (c : Cursor) (w base off : ℕ) (o : Option Data)
        → c.i < nentries
        → (nentries - c.i) * 2 ≤ w
        → Lowers w (examine size big dev sb before name create nentries c base off o)
    unfolding examine
    examine-Lowers c w base off none lt le = λ e. absurd (cc)
    examine-Lowers c w base off (some d) lt le =
        if-all (Lowers w) (half_at big d 0 == minix_inode_null) _ _
          (λ _. advance_lowers c w off (some c.i) lt le)
          (λ _.
            if-all (Lowers w) (starts_as minix_name_max name d 2) _ _
              (λ _. if-all (Lowers w) create _ _ (λ _ e. absurd (cc)) (λ _ e. absurd (cc)))
              (λ _. advance_lowers c w off c.entry lt le))

    in_block-Lowers :
        (c : Cursor) (base : Option ℕ)
        → c.base ≡ base
        → c.i < nentries
        → Lowers (weight nentries c) (in_block size big dev sb before name create nentries c base)
    unfolding in_block
    in_block-Lowers c none e lt =
        let at = c.blk * minix_block_size in
        examine-Lowers (record c { base = some at; off = 0 }) (weight nentries c) at 0 _ lt
          (omega arith)
    in_block-Lowers c (some base) e lt =
        if-all (Lowers (weight nentries c)) (leb minix_block_size c.off) _ _
          (λ t. moved-Lowers _ (record c { base = none }) _ (rw (e, t) (omega arith)))
          (λ _. examine-Lowers c _ base c.off _ lt (omega arith))

    search_round-Lowers :
        (c : Cursor)
        → Lowers (weight nentries c) (search_round size big dev sb before name create nentries c)
    unfolding search_round
    search_round-Lowers c =
        if-all (Lowers (weight nentries c)) (leb nentries c.i) _ _ (λ _ e. absurd (cc))
          (λ f.
            if-all (Lowers (weight nentries c)) (c.blk == minix_block_null) _ _
              (λ _. moved-Lowers _ (record c { i = c.i + entries_per_block }) _ (ground arith))
              (λ _. in_block-Lowers c c.base refl (ground arith)))

    repeat_ends :
        (loop : Cursor → Searched) (w : ℕ) (r : Cursor ⊎ Searched)
        → Lowers w r
        → ((c : Cursor) → weight nentries c < w → loop c ≢ running)
        → repeat size big dev sb before name create nentries loop r ≢ running
    repeat_ends loop w (inl c) h go = go c h
    repeat_ends loop w (inr r) h go = h

    -- With more rounds than the weight the loop ends.
    pub search_loop-ends :
        (fuel : ℕ) (c : Cursor)
        → weight nentries c < fuel
        → search_loop size big dev sb before name create nentries fuel c ≢ running
    unfolding search_loop
    search_loop-ends zero c lt = absurd (omega arith)
    search_loop-ends (suc fuel) c lt =
        repeat_ends _ (weight nentries c)
          (search_round size big dev sb before name create nentries c) (search_round-Lowers c)
          (λ c' lt'. search_loop-ends fuel c' (omega arith))

  -- The loop of a search ends within the fuel that is given to it: it finds an entry, comes to the
  -- end of the directory, or stops the server.
  pub search_loop-terminates :
      (m : FileMap) (name : Name) (create : Bool)
      → search_loop size big dev sb before name create
          (nr_entries size big dev sb before m)
          (search_fuel size big dev sb before (nr_entries size big dev sb before m))
          (start size big dev sb before m)
        ≢ running
  search_loop-terminates m name create =
      search_loop-ends name create (m.inode.i_size / sizeof_d_dirent) _
        (start size big dev sb before m) (omega arith)

  -- An entry of the directory, with its number, at an offset of the disk
  pub record IsEntry (disks : Disks) (off : ℕ) (name : Name) (num : ℕ) : Type 0 where
    pub bytes : Data
    pub is_read : entry_at size big dev sb before disks off ≡ some bytes
    pub number : half_at big bytes 0 ≡ num
    pub in_use : num ≢ minix_inode_null
    pub is_named : starts_as minix_name_max name bytes 2 ≡ true

  module _ (name : Name) (create : Bool) (nentries : ℕ) where
    -- What the loop finds
    abbrev Finds : Searched → Type 0
    Finds (found off m) = (create ≡ false) × ((num : ℕ) × IsEntry m.disks off name num)
    Finds (duplicate m) = create ≡ true
    Finds (missing entry m) = Unit {0}
    Finds stopped = Unit {0}
    Finds running = Unit {0}

    abbrev RoundFinds : Cursor ⊎ Searched → Type 0
    RoundFinds (inl c) = Unit {0}
    RoundFinds (inr r) = Finds r

    moved-Finds :
        (c : Cursor) (o : Option (ℕ × FileMap))
        → RoundFinds (moved size big dev sb before name create nentries c o)
    moved-Finds c none = tt
    moved-Finds c (some (blk, m)) = tt

    examine-Finds :
        (c : Cursor) (base off : ℕ) (o : Option Data)
        → entry_at size big dev sb before c.map.disks (base + off) ≡ o
        → RoundFinds (examine size big dev sb before name create nentries c base off o)
    unfolding examine
    examine-Finds c base off none e = tt
    examine-Finds c base off (some d) e =
        if-all RoundFinds (half_at big d 0 == minix_inode_null) _ _ (λ _. tt)
          (λ used.
            if-all RoundFinds (starts_as minix_name_max name d 2) _ _
              (λ named.
                if-all RoundFinds create _ _ (λ t. t)
                  (λ f. (
                    f,
                    (
                      half_at big d 0,
                      record {
                        bytes = d;
                        is_read = e;
                        number = refl;
                        in_use = λ z. absurd (ground (arith, used, z));
                        is_named = named;
                      },
                    ),
                  )))
              (λ _. tt))

    in_block-Finds :
        (c : Cursor) (base : Option ℕ)
        → RoundFinds (in_block size big dev sb before name create nentries c base)
    unfolding in_block
    in_block-Finds c none =
        let at = c.blk * minix_block_size in
        examine-Finds (record c { base = some at; off = 0 }) at 0 _
          (ap (entry_at size big dev sb before c.map.disks) (plus_zero at))
    in_block-Finds c (some base) =
        if-all RoundFinds (leb minix_block_size c.off) _ _
          (λ t. moved-Finds (record c { base = none }) _) (λ _. examine-Finds c base c.off _ refl)

    search_round-Finds :
        (c : Cursor) → RoundFinds (search_round size big dev sb before name create nentries c)
    unfolding search_round
    search_round-Finds c =
        if-all RoundFinds (leb nentries c.i) _ _ (λ _. tt)
          (λ f.
            if-all RoundFinds (c.blk == minix_block_null) _ _
              (λ _. moved-Finds (record c { i = c.i + entries_per_block }) _)
              (λ _. in_block-Finds c c.base))

    repeat-Finds :
        (loop : Cursor → Searched) (r : Cursor ⊎ Searched)
        → RoundFinds r
        → ((c : Cursor) → Finds (loop c))
        → Finds (repeat size big dev sb before name create nentries loop r)
    repeat-Finds loop (inl c) h go = go c
    repeat-Finds loop (inr r) h go = h

    pub search_loop-Finds :
        (fuel : ℕ) (c : Cursor)
        → Finds (search_loop size big dev sb before name create nentries fuel c)
    unfolding search_loop
    search_loop-Finds zero c = tt
    search_loop-Finds (suc fuel) c =
        repeat-Finds _ (search_round size big dev sb before name create nentries c)
          (search_round-Finds c) (search_loop-Finds fuel)

  search_end-IsEntry :
      (name : Name) (nentries off : ℕ) (m : FileMap) (r : Searched)
      → Finds name false nentries r
      → search_end size big dev sb before name false nentries r ≡ some (ok off, m)
      → (num : ℕ) × IsEntry m.disks off name num
  unfolding search_end
  search_end-IsEntry name nentries off m (found off' m') h e =
      subst (λ p. (num : ℕ) × IsEntry (found_map p).disks (found_off p) name num) (some_inj _ _ e)
        h.1
    where
      found_map : Result ℕ × FileMap → FileMap
      found_map (r, m) = m

      found_off : Result ℕ × FileMap → ℕ
      found_off (ok n, m) = n
      found_off (err e, m) = 0
  search_end-IsEntry name nentries off m (duplicate m') h e = absurd (cc)
  search_end-IsEntry name nentries off m (missing entry m') h e = absurd (cc)
  search_end-IsEntry name nentries off m stopped h e = absurd (cc)
  search_end-IsEntry name nentries off m running h e = absurd (cc)

  -- Where a search that does not create gives an offset, the disk has an entry there that is in use
  -- and has the name.
  pub minix_dirent_search-IsEntry :
      (m m' : FileMap) (name : Name) (off : ℕ)
      → minix_dirent_search size big dev sb before m name false ≡ some (ok off, m')
      → (num : ℕ) × IsEntry m'.disks off name num
  unfolding minix_dirent_search
  minix_dirent_search-IsEntry m m' name off e = elim (if_inv (not (s_isdir m.inode.i_mode)) _ _ e) [
    | inl (_, bad) ↦ absurd (cc)
    | inr (_, e') ↦ elim (if_inv (ltb minix_name_max (length name)) _ _ e') [
      | inl (_, bad) ↦ absurd (cc)
      | inr (_, e'') ↦
          search_end-IsEntry name (m.inode.i_size / sizeof_d_dirent) off m' _
            (search_loop-Finds name false (m.inode.i_size / sizeof_d_dirent) _
              (start size big dev sb before m))
            e''
    ]
  ]
