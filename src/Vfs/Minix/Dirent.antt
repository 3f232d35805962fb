-- ===== src/Vfs/Minix/Dirent.antt =====
-- src/sys/fs/vfs/minix/minix.c: the entries of a directory. A name is the bytes of the C string
-- before its end. All pointers are to objects.
pub mod Search
pub mod Place
pub mod Add
mod Tests
use multikernel.Common.{
  ℕ, zero, suc, ◌+◌, ◌-◌, ◌*◌, ◌/◌, ◌%◌, ◌^◌, Bool, true, false, ◌&&◌, not, Option, none, some,
  List, [], ◌∷◌, length, ◌⊎◌, inl, inr, pos, leb, ltb, ◌==◌, if◌then◌else◌, Result, ok, err, Status,
  einval, eperm, enametoolong, eexist, eagain, ebusy, enoent,
}
use multikernel.Vfs.Mode.{s_isdir}
use multikernel.Vfs.Disk.{Data, Disks, ramdisk_read, ramdisk_write}
use multikernel.Vfs.Minix.{Superblock, DInode, minix_block_size, minix_block_null, minix_inode_null}
use multikernel.Vfs.Minix.Bytes.{half_at, half_byte}
use multikernel.Vfs.Minix.Inode.{minix_inode_read, minix_inode_write, fresh_inode}
use multikernel.Vfs.Minix.Block.{FileMap, minix_block_map}

abbrev pub Name : Type 0
Name = List ℕ

-- MINIX_NAME_MAX, `sizeof(struct d_dirent)`, and the entries in a block
abbrev pub minix_name_max : ℕ
minix_name_max = 14

abbrev pub sizeof_d_dirent : ℕ
sizeof_d_dirent = 16

abbrev pub entries_per_block : ℕ
entries_per_block = 64

-- `!ustrncmp(b + p, name, n)`
unfoldable pub starts_as : ℕ → Name → Data → ℕ → Bool
starts_as zero name b p = true
starts_as (suc n) [] b p = b p == 0
starts_as (suc n) (x ∷ xs) b p = b p == x && starts_as n xs b (p + 1)

-- A byte of the array that `ustrncpy` fills
pub name_byte : Name → ℕ → ℕ
name_byte [] k = 0
name_byte (x ∷ xs) zero = x
name_byte (x ∷ xs) (suc k) = name_byte xs k

-- `!ustrcmp(name, ".")`
abbrev pub is_dot : Name → Bool
is_dot [] = false
is_dot (x ∷ []) = x == 46
is_dot (x ∷ y ∷ ys) = false

-- The local variables of the search; `none` is -1 in `base` and in `entry`.
pub record Cursor : Type 0 where
  pub i : ℕ
  pub off : ℕ
  pub base : Option ℕ
  pub entry : Option ℕ
  pub blk : ℕ
  pub map : FileMap

-- How the loop of the search goes out: with an entry of that name, as the end of the loop, or as a
-- panic or a failed assertion; `running` is a loop that is cut off.
pub data Searched : Type 0 where
  found : ℕ → FileMap → Searched
  duplicate : FileMap → Searched
  missing : Option ℕ → FileMap → Searched
  stopped : Searched
  running : Searched

-- `d`, where it is read whole
abbrev pub whole_entry : Result ℕ × Data → Option Data
whole_entry (ok n, d) = if n == sizeof_d_dirent then some d else none
whole_entry (err e, d) = none

-- `before` is what the working buffers hold before they are read.
module _ (size : ℕ) (big : Bool) (dev : ℕ) (sb : Superblock) (before : Data) where
  -- `bdev_read(dev, (char *)&d, sizeof(struct d_dirent), off)`, and the assertion
  abbrev pub entry_at : Disks → ℕ → Option Data
  entry_at disks off = whole_entry (ramdisk_read size disks dev before sizeof_d_dirent (pos off))

  module _ (name : Name) (create : Bool) (nentries : ℕ) where
    -- After `blk = minix_block_map(...)`
    abbrev pub moved : Cursor → Option (ℕ × FileMap) → Cursor ⊎ Searched
    moved c none = inr stopped
    moved c (some (blk, m)) = inl (record c { blk = blk; map = m })

    abbrev pub advance : Cursor → ℕ → Option ℕ → Cursor
    advance c off entry = record c { i = c.i + 1; off = off + sizeof_d_dirent; entry = entry }

    -- The rest of a round, with the entry that is read
    unfoldable pub examine : Cursor → ℕ → ℕ → Option Data → Cursor ⊎ Searched
    unfolding starts_as
    examine c base off none = inr stopped
    examine c base off (some d) =
        if half_at big d 0 == minix_inode_null
        then inl (advance c off (some c.i))
        else if starts_as minix_name_max name d 2
        then (if create then inr (duplicate c.map) else inr (found (base + off) c.map))
        else inl (advance c off c.entry)

    -- A round in a block: at its first entry, behind its last one, or between them
    unfoldable pub in_block : Cursor → Option ℕ → Cursor ⊎ Searched
    unfolding examine
    in_block c none =
        let base = c.blk * minix_block_size in
        examine (record c { base = some base; off = 0 }) base 0 (entry_at c.map.disks base)
    in_block c (some base) =
        if leb minix_block_size c.off
        then moved (record c { base = none })
            (minix_block_map size big sb before c.map (pos (c.i * sizeof_d_dirent)) false)
        else examine c base c.off (entry_at c.map.disks (base + c.off))

    -- A round of the loop
    unfoldable pub search_round : Cursor → Cursor ⊎ Searched
    unfolding in_block
    search_round c =
        if leb nentries c.i
        then inr (missing c.entry c.map)
        else if c.blk == minix_block_null
        then moved (record c { i = c.i + entries_per_block })
            (minix_block_map size big sb before c.map
              (pos ((c.i + entries_per_block) * sizeof_d_dirent)) false)
        else in_block c c.base

    abbrev pub repeat : (Cursor → Searched) → Cursor ⊎ Searched → Searched
    repeat loop (inl c) = loop c
    repeat loop (inr r) = r

    unfoldable pub search_loop : ℕ → Cursor → Searched
    search_loop zero c = running
    search_loop (suc fuel) c = repeat (search_loop fuel) (search_round c)

    -- The offset of an entry in its block
    abbrev pub placed : ℕ → Option (ℕ × FileMap) → Option (Result ℕ × FileMap)
    placed entry none = none
    placed entry (some (blk, m)) =
        some (ok (blk * minix_block_size + entry % entries_per_block * sizeof_d_dirent), m)

    -- `dip->i_size += sizeof(struct d_dirent);`
    abbrev pub grown : Option (ℕ × FileMap) → Option (ℕ × FileMap)
    grown none = none
    grown (some (blk, m)) =
        let size' = (m.inode.i_size + sizeof_d_dirent) % 2 ^ 32 in
        some (blk, record m { inode = record m.inode { i_size = size' } })

    -- A new entry: one that was free, or one behind the last
    pub new_entry : Option ℕ → FileMap → Option (Result ℕ × FileMap)
    new_entry none m =
        placed nentries
          (grown (minix_block_map size big sb before m (pos (nentries * sizeof_d_dirent)) true))
    new_entry (some entry) m =
        placed entry (minix_block_map size big sb before m (pos (entry * sizeof_d_dirent)) false)

    unfoldable pub search_end : Searched → Option (Result ℕ × FileMap)
    unfolding new_entry
    search_end (found off m) = some (ok off, m)
    search_end (duplicate m) = some (err eexist, m)
    search_end (missing entry m) = if not create then some (err eperm, m) else new_entry entry m
    search_end stopped = none
    search_end running = none

  -- `nentries`
  abbrev pub nr_entries : FileMap → ℕ
  nr_entries m = m.inode.i_size / sizeof_d_dirent

  -- The first round starts in the first zone.
  abbrev pub start : FileMap → Cursor
  start m = record { i = 0; off = 0; base = none; entry = none; blk = m.inode.i_zones 0; map = m }

  -- The fuel: two rounds for each entry, and one more
  abbrev pub search_fuel : ℕ → ℕ
  search_fuel nentries = nentries * 2 + 1

  -- -1 is EPERM, negated. `none` is a panic or a failed assertion.
  unfoldable pub minix_dirent_search : FileMap → Name → Bool → Option (Result ℕ × FileMap)
  unfolding search_loop search_end
  minix_dirent_search m name create =
      if not (s_isdir m.inode.i_mode)
      then some (err einval, m)
      else if ltb minix_name_max (length name)
      then some (err enametoolong, m)
      else search_end name create (nr_entries m)
          (search_loop name create (nr_entries m) (search_fuel (nr_entries m)) (start m))

  -- `d`, with the number and the name set
  abbrev pub entry_bytes : ℕ → Name → Data
  entry_bytes num name k = if ltb k 2 then half_byte big num k else name_byte name (k - 2)

  -- `bdev_write(dev, (char *)&d, sizeof(struct d_dirent), off)`, and the assertion
  abbrev pub stored : FileMap → Result ℕ × Disks → Option FileMap
  stored m (ok n, disks) = if n == sizeof_d_dirent then some (record m { disks = disks }) else none
  stored m (err e, disks) = none

  abbrev pub put_entry : FileMap → ℕ → Data → Option FileMap
  put_entry m off d = stored m (ramdisk_write size m.disks dev d sizeof_d_dirent (pos off))

  -- `dip->i_nlinks++; dip->i_time = 0;`
  abbrev pub linked : Option FileMap → Option (Status × FileMap)
  linked none = none
  linked (some m) = some (
    ok tt,
    record m { inode = record m.inode { i_nlinks = (m.inode.i_nlinks + 1) % 2 ^ 8; i_time = 0 } },
  )

  -- The entry is read, set and written.
  abbrev pub filled : FileMap → ℕ → ℕ → Name → Option Data → Option (Status × FileMap)
  filled m off num name none = none
  filled m off num name (some d) = linked (put_entry m off (entry_bytes num name))

  pub add_at : ℕ → Name → Option (Result ℕ × FileMap) → Option (Status × FileMap)
  unfolding name_byte
  add_at num name none = none
  add_at num name (some (err e, m)) = some (err eagain, m)
  add_at num name (some (ok off, m)) = filled m off num name (entry_at m.disks off)

  pub minix_dirent_add : FileMap → Name → ℕ → Option (Status × FileMap)
  unfolding minix_dirent_search add_at
  minix_dirent_add m name num =
      if not (s_isdir m.inode.i_mode)
      then some (err einval, m)
      else if ltb minix_name_max (length name)
      then some (err enametoolong, m)
      else if num == minix_inode_null
      then some (err einval, m)
      else add_at num name (minix_dirent_search m name true)

  abbrev pub cleared : Option FileMap → Option (Status × FileMap)
  cleared none = none
  cleared (some m) = some (ok tt, m)

  -- After the write of the i-node
  abbrev pub clear_entry : FileMap → ℕ → Status × Disks → Option (Status × FileMap)
  clear_entry m off (err e, disks) = some (err eagain, record m { disks = disks })
  clear_entry m off (ok u, disks) =
      cleared (put_entry (record m { disks = disks }) off (entry_bytes minix_inode_null []))

  -- `ip.i_nlinks--`
  abbrev pub unlinked : DInode → DInode
  unlinked ip = record ip { i_nlinks = (ip.i_nlinks + 2 ^ 8 - 1) % 2 ^ 8 }

  -- After the read of the i-node
  pub unlink_inode : FileMap → ℕ → ℕ → Status × DInode → Option (Status × FileMap)
  unfolding name_byte
  unlink_inode m off num (err e, ip) = some (err enoent, m)
  unlink_inode m off num (ok u, ip) =
      if s_isdir ip.i_mode && ltb 0 ip.i_size
      then some (err ebusy, m)
      else clear_entry m off (minix_inode_write size big m.disks dev sb (unlinked ip) num)

  -- With the directory entry; each field of `ip`, which has no value before, is read.
  pub unlink_entry : FileMap → ℕ → Option Data → Option (Status × FileMap)
  unfolding unlink_inode
  unlink_entry m off none = none
  unlink_entry m off (some d) =
      let num = half_at big d 0 in
      unlink_inode m off num
        (minix_inode_read size big m.disks dev sb (fresh_inode size big 0 0 0 0) num)

  pub remove_at : Option (Result ℕ × FileMap) → Option (Status × FileMap)
  unfolding unlink_entry
  remove_at none = none
  remove_at (some (err e, m)) = some (err enoent, m)
  remove_at (some (ok off, m)) = unlink_entry m off (entry_at m.disks off)

  pub minix_dirent_remove : FileMap → Name → Option (Status × FileMap)
  unfolding minix_dirent_search remove_at
  minix_dirent_remove m name =
      if not (s_isdir m.inode.i_mode)
      then some (err einval, m)
      else if ltb minix_name_max (length name)
      then some (err enametoolong, m)
      else if is_dot name
      then some (err ebusy, m)
      else remove_at (minix_dirent_search m name false)
