-- ===== src/Vfs/Bcache.antt =====
-- src/sys/fs/vfs/bcache/bcache.c: the block cache. A pointer to a buffer is the index of the buffer
-- in `buffers`, or `none` for a null pointer. The status word of a buffer is the kernel's.
mod Tests
pub mod Flags
pub mod Evict
pub mod Coherent
pub mod Get
pub mod Read
pub mod Change
pub mod Write
use multikernel.Common.{
  ℕ, zero, suc, ◌+◌, ◌-◌, ◌*◌, ◌%◌, ◌^◌, Bool, true, false, ◌&&◌, ◌||◌, not, Option, none, some, ℤ,
  pos, negsuc, ◌==ℤ◌, leb, ltb, ◌==◌, if◌then◌else◌, update, find_entry, Result, ok, err, Status,
  einval,
}
use multikernel.Vfs.Disk.{Data, Disks, ramdisk_read, ramdisk_write}
use multikernel.Vfs.Bcache.Flags.{FlagOps}

-- NANVIX_FS_NR_BUFFERS and NANVIX_FS_BLOCK_SIZE
abbrev pub nr_buffers : ℕ
nr_buffers = 32

abbrev pub block_size : ℕ
block_size = 1024

-- `num*NANVIX_FS_BLOCK_SIZE`, of 32 bits
abbrev pub block_offset : ℕ → ℤ
block_offset num = pos (num * block_size % 2 ^ 32)

-- `(k - 1)%NANVIX_FS_NR_BUFFERS`, which is -1 for the first buffer
abbrev pub last_position : ℕ → ℤ
last_position k = if k == 0 then negsuc 0 else pos ((k - 1) % nr_buffers)

-- Whether a pointer is one into `buffers`
abbrev pub is_buffer : ℕ → Bool
is_buffer i = ltb i nr_buffers

module _ (ops : FlagOps) where
  open ops use {
    Flags, initializer, is_used, is_dirty, is_valid, set_used, set_unused, set_dirty, set_clean,
    set_valid, set_invalid,
  }

  -- `struct buffer`; `count` does not go below zero, which `brelse` tests.
  pub record Buffer : Type 0 where
    pub flags : Flags
    pub dev : ℕ
    pub num : ℕ
    pub bytes : Data
    pub count : ℕ

  -- `buffers`, the static `k` of `evict`, and the disks behind the cache
  pub record Cache : Type 0 where
    pub buffers : ℕ → Buffer
    pub k : ℕ
    pub disks : Disks

  abbrev pub set_buffer : Cache → ℕ → Buffer → Cache
  set_buffer s i b = record s { buffers = update s.buffers i b }

  abbrev pub set_flags : Cache → ℕ → Flags → Cache
  set_flags s i f = set_buffer s i (record (s.buffers i) { flags = f })

  pub buffer_get_data : Cache → Option ℕ → Option Data
  buffer_get_data s none = none
  buffer_get_data s (some i) = if is_buffer i then some (s.buffers i).bytes else none

  pub buffer_set_dirty : Cache → Option ℕ → Status × Cache
  buffer_set_dirty s none = (err einval, s)
  buffer_set_dirty s (some i) =
      if is_buffer i
      then (ok tt, set_flags s i (set_dirty (s.buffers i).flags))
      else (err einval, s)

  pub buffer_is_dirty : Cache → Option ℕ → Bool
  buffer_is_dirty s none = false
  buffer_is_dirty s (some i) = if is_buffer i then is_dirty (s.buffers i).flags else false

  -- A buffer that ends the search for a victim
  abbrev pub is_spare : Buffer → Bool
  is_spare b = not (is_used b.flags) && not (is_dirty b.flags)

  abbrev pub candidate : (ℕ → Buffer) → ℕ → Option ℕ → Option ℕ
  candidate bufs i c = if is_used (bufs i).flags then c else some i

  -- The loop of `evict` from position `i` on, with the candidate so far. Without fuel it is `none`;
  -- the end of the loop is `some`, with the buffer that is selected, if one is.
  pub search_victim : ℕ → (ℕ → Buffer) → ℤ → ℕ → Option ℕ → Option (Option ℕ)
  search_victim zero bufs last i c = none
  search_victim (suc fuel) bufs last i c =
      let rest = search_victim fuel bufs last ((i + 1) % nr_buffers) (candidate bufs i c) in
      if pos i ==ℤ last then some c else if is_spare (bufs i) then some (some i) else rest

  module _ (size : ℕ) where
    -- `bdev_writeblk(buf)`, and `resource_set_clean`
    pub write_back : Cache → ℕ → Cache
    write_back s i =
        let b = s.buffers i in
        set_flags
          (record s {
            disks = (ramdisk_write size s.disks b.dev b.bytes block_size (block_offset b.num)).1;
          })
          i (set_clean b.flags)

    abbrev pub cleaned : Cache → ℕ → Cache
    cleaned s i = if is_dirty (s.buffers i).flags then write_back s i else s

    abbrev pub invalidated : Cache → ℕ → Cache
    invalidated s i = set_flags s i (set_invalid (s.buffers i).flags)

    abbrev pub evicted : Cache → Option (Option ℕ) → Option (Option ℕ × Cache)
    evicted s none = none
    evicted s (some none) = some (none, s)
    evicted s (some (some i)) = some (some i, invalidated (cleaned s i) i)

    -- `none` is a loop that does not end. The fuel is one round for each buffer.
    pub evict : Cache → Option (Option ℕ × Cache)
    unfolding search_victim write_back
    evict s =
        evicted (record s { k = (s.k + 1) % nr_buffers })
          (search_victim nr_buffers s.buffers (last_position s.k) s.k none)

    -- `buf->count++`, and `resource_set_used`
    abbrev pub taken : Cache → ℕ → Cache
    taken s i = set_buffer s i (record (s.buffers i) {
      count = (s.buffers i).count + 1;
      flags = set_used (s.buffers i).flags;
    })

    abbrev pub is_block : ℕ → ℕ → Buffer → Bool
    is_block dev num b = is_valid b.flags && b.dev == dev && b.num == num

    abbrev pub taken_over : ℕ → ℕ → Option (Option ℕ × Cache) → Option (Option ℕ × Cache)
    taken_over dev num none = none
    taken_over dev num (some (none, s)) = some (none, s)
    taken_over dev num (some (some i, s)) =
        some (some i, taken (set_buffer s i (record (s.buffers i) { dev = dev; num = num })) i)

    pub get_found : Cache → ℕ → ℕ → Option ℕ → Option (Option ℕ × Cache)
    unfolding evict
    get_found s dev num (some i) = some (some i, taken s i)
    get_found s dev num none = taken_over dev num (evict s)

    pub getblk : Cache → ℕ → ℕ → Option (Option ℕ × Cache)
    unfolding get_found
    getblk s dev num = get_found s dev num (find_entry (is_block dev num) s.buffers nr_buffers)

    -- `if (buf->count-- == 1) resource_set_unused(&buf->flags);`
    abbrev pub released : Buffer → Buffer
    released b =
        if b.count == 1
        then record b { count = 0; flags = set_unused b.flags }
        else record b { count = b.count - 1 }

    pub brelse : Cache → Option ℕ → Status × Cache
    brelse s none = (err einval, s)
    brelse s (some i) =
        if not (is_buffer i)
        then (err einval, s)
        else if (s.buffers i).count == 0
        then (err einval, s)
        else (ok tt, set_buffer s i (released (s.buffers i)))

    -- `uassert(brelse(buf) == 0)`, after a read that failed
    abbrev pub given_up : Status × Cache → Option (Option ℕ × Cache)
    given_up (ok u, s) = some (none, s)
    given_up (err e, s) = none

    pub loaded : Cache → ℕ → Result ℕ × Data → Option (Option ℕ × Cache)
    unfolding brelse
    loaded s i (ok n, bytes) = some (
      some i,
      set_buffer s i
          (record (s.buffers i) { bytes = bytes; flags = set_valid (s.buffers i).flags }),
    )
    loaded s i (err e, bytes) =
        given_up (brelse (set_buffer s i (record (s.buffers i) { bytes = bytes })) (some i))

    pub read_in : Option (Option ℕ × Cache) → Option (Option ℕ × Cache)
    unfolding loaded
    read_in none = none
    read_in (some (none, s)) = some (none, s)
    read_in (some (some i, s)) =
        let b = s.buffers i in
        if is_valid b.flags
        then some (some i, s)
        else loaded s i (ramdisk_read size s.disks b.dev b.bytes block_size (block_offset b.num))

    -- `none` is a loop of `evict` that does not end, or a failed assertion.
    pub bread : Cache → ℕ → ℕ → Option (Option ℕ × Cache)
    unfolding getblk read_in
    bread s dev num = read_in (getblk s dev num)

    pub bwrite2 : Cache → Option ℕ → Status × Cache
    unfolding write_back
    bwrite2 s none = (err einval, s)
    bwrite2 s (some i) =
        if not (is_buffer i)
        then (err einval, s)
        else if (s.buffers i).count == 0
        then (err einval, s)
        else if is_valid (s.buffers i).flags
        then (ok tt, cleaned s i)
        else (ok tt, s)

    abbrev pub then_release : Option ℕ → Status × Cache → Status × Cache
    then_release i (err e, s) = (err e, s)
    then_release i (ok u, s) = brelse s i

    pub bwrite : Cache → Option ℕ → Status × Cache
    unfolding bwrite2 brelse
    bwrite s i = then_release i (bwrite2 s i)

  -- What `binit` leaves; the bytes of the buffers are those before it.
  pub binit : (ℕ → Data) → Disks → Cache
  binit before disks = record {
    buffers = λ i. record { flags = initializer; dev = 0; num = 0; bytes = before i; count = 0 };
    k = 0;
    disks = disks;
  }
