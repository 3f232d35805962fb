-- ===== src/Vfs/Minix/Dirent/Add.antt =====
-- What the addition of an entry leaves on the disk.
use multikernel.Common.{ℕ, ◌≡◌, Bool, true, Option, update}
use multikernel.Vfs.Disk.{Data, Disks, copy_from, copy_to}
use multikernel.Vfs.Minix.{Superblock}
use multikernel.Vfs.Minix.Block.{FileMap}
use multikernel.Vfs.Minix.Dirent.{
  Name, sizeof_d_dirent, missing, search_loop, search_fuel, nr_entries, start, entry_bytes,
}
use multikernel.Vfs.Minix.Dirent.Search.{IsEntry}
use multikernel.Vfs.Minix.Dirent.Place.{IsPlace}

module _ (size : ℕ) (big : Bool) (dev : ℕ) (sb : Superblock) (before : Data) where
  abbrev bytes_of : ℕ → Name → Data
  bytes_of num name = entry_bytes size big dev sb before num name

  -- The disks after the write of an entry
  abbrev with_entry : Disks → ℕ → ℕ → Name → Disks
  with_entry disks off num name =
      update disks dev (copy_to (disks dev) (bytes_of num name) sizeof_d_dirent off)

  abbrev read_back : Disks → ℕ → ℕ → Name → Data
  read_back disks off num name =
      copy_from (with_entry disks off num name dev) before sizeof_d_dirent off

  -- What a write of an entry that the call goes on after leaves: the entry, and every other
  -- byte as it was
  abbrev Leaves : Disks → Disks → ℕ → ℕ → Name → Type 0
  Leaves disks disks' off num name =
      IsEntry size big dev sb before disks' off name num × (disks' ≡ with_entry disks off num name)

  -- The search that creates has come to the end of the directory without the name, and the entry is
  -- at the place of an entry of the directory, or of the one by which it grows.
  pub record Added (m m' : FileMap) (name : Name) (num : ℕ) : Type 0 where
    pub off : ℕ
    pub searched : FileMap
    pub placed : FileMap
    pub free : Option ℕ
    pub is_searched :
        search_loop size big dev sb before name true
          (nr_entries size big dev sb before m)
          (search_fuel size big dev sb before (nr_entries size big dev sb before m))
          (start size big dev sb before m)
        ≡ missing free searched
    pub place :
        IsPlace size big dev sb before (nr_entries size big dev sb before m) searched placed off
    pub entry : IsEntry size big dev sb before m'.disks off name num
    pub others : m'.disks ≡ with_entry placed.disks off num name
