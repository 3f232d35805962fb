-- ===== src/Vfs/Bcache/Tests.antt =====
-- Tests of the RAM disk and of the block cache, with a status word of three flags, on a disk of 64 KB
-- and a cache that holds block 3 in a referenced buffer.
use multikernel.Common.{
  ℕ, ◌+◌, ◌-◌, ◌*◌, ◌<◌, ◌≡◌, refl, ◌⊎◌, Bool, true, false, Option, none, some, pos, arith,
  if◌then◌else◌, ok,
}
use multikernel.Vfs.Disk.{Data, Disks, is_within, ramdisk_read, ramdisk_write}
use multikernel.Vfs.Disk.Access.{ramdisk_write-read}
use multikernel.Vfs.Bcache.Flags.{FlagOps}
use multikernel.Vfs.Bcache.{
  Buffer, Cache, nr_buffers, block_size, set_buffer, is_spare, last_position, search_victim, bread,
  bwrite, buffer_set_dirty, binit,
}
use multikernel.Vfs.Bcache.Evict.{Selects, search_victim-terminates}
use multikernel.Vfs.Bcache.Coherent.{Content, Represents, set_buffer-Represents}
use multikernel.Vfs.Bcache.Read.{Reads, bread-Reads}
use multikernel.Vfs.Bcache.Change.{replaced}
use multikernel.Vfs.Bcache.Write.{binit-Represents, bwrite-bread}

record Bits : Type 0 where
  used : Bool
  dirty : Bool
  valid : Bool

abbrev three_flags : FlagOps
three_flags = record {
  Flags = Bits;
  initializer = record { used = false; dirty = false; valid = false };
  is_used = λ f. f.used;
  is_dirty = λ f. f.dirty;
  is_valid = λ f. f.valid;
  set_used = λ f. record f { used = true };
  set_unused = λ f. record f { used = false };
  set_dirty = λ f. record f { dirty = true };
  set_clean = λ f. record f { dirty = false };
  set_valid = λ f. record f { valid = true };
  set_invalid = λ f. record f { valid = false };
  initial = (refl, refl, refl);
  sets_used = λ f. (refl, refl, refl);
  sets_unused = λ f. (refl, refl, refl);
  sets_dirty = λ f. (refl, refl, refl);
  sets_clean = λ f. (refl, refl, refl);
  sets_valid = λ f. (refl, refl, refl);
  sets_invalid = λ f. (refl, refl, refl);
}

abbrev disk_size : ℕ
disk_size = 65536

abbrev some_disks : Disks
some_disks dev k = k

abbrev content : Content
content dev num x = some_disks dev (num * block_size + x)

abbrev started : Cache three_flags
started = binit three_flags (λ i k. 0) some_disks

started-Represents : Represents three_flags disk_size started content
started-Represents = binit-Represents three_flags disk_size (λ i k. 0) some_disks

abbrev third_block : Buffer three_flags
third_block = record {
  flags = record { used = true; dirty = false; valid = true };
  dev = 0;
  num = 3;
  bytes = content 0 3;
  count = 1;
}

abbrev holding : Cache three_flags
holding = set_buffer three_flags started 2 third_block

abbrev greeting : Data
greeting k = 72

abbrev start : ℕ
start = 3

ramdisk_write-read_example :
    let out =
      ramdisk_read 65536
        (ramdisk_write 65536 some_disks 0 greeting 10 (pos 5)).1
        0
        greeting
        20
        (pos 0) in
    (out.0 ≡ ok 20)
    × ((k : ℕ)
        → k < 20
        → out.1 k ≡ (if is_within 5 10 (0 + k) then greeting (0 + k - 5) else some_disks 0 (0 + k)))
ramdisk_write-read_example =
    ramdisk_write-read 65536 some_disks 0 greeting greeting 10 20 5 0 refl refl

search_victim-terminates_example :
    ((start ≡ 0)
      × ((j : ℕ) → j < nr_buffers → is_spare three_flags (holding.buffers j) ≡ false)
      × ((fuel : ℕ)
          → search_victim three_flags fuel holding.buffers (last_position start) start none ≡ none))
    ⊎ ((c : Option ℕ) × (search_victim three_flags nr_buffers holding.buffers
            (last_position start)
            start
            none
          ≡ some c)
        × Selects three_flags holding.buffers start c)
search_victim-terminates_example =
    search_victim-terminates three_flags holding.buffers start (omega arith)

bread-Reads_example :
    Reads three_flags disk_size started content 0 3 (bread three_flags disk_size started 0 3)
bread-Reads_example =
    bread-Reads three_flags disk_size started content 0 3 started-Represents (omega arith)

not_set : false ≡ true → ⊥
not_set h = ground (arith, h)

holding-Represents : Represents three_flags disk_size holding content
unfolding binit
holding-Represents =
    set_buffer-Represents three_flags disk_size started content 2 third_block started-Represents
      (record {
        placed = λ _. (omega arith, refl);
        cached = λ _ x _. refl;
        dirty_valid = λ _. refl;
        counted = refl;
      })
      (λ j hj ne v v'. absurd (not_set v')) (λ dev num (d, _). absurd (not_set d))

bwrite-bread_example :
    let marked =
      buffer_set_dirty three_flags
        (set_buffer three_flags holding 2 (record (holding.buffers 2) { bytes = greeting }))
        (some 2) in
    let written = bwrite three_flags disk_size marked.1 (some 2) in
    (written.0 ≡ ok tt)
    × Reads three_flags disk_size written.1
        (replaced content 0 3 greeting)
        0
        4
        (bread three_flags disk_size written.1 0 4)
bwrite-bread_example =
    bwrite-bread three_flags disk_size holding content 2 greeting 0 4 holding-Represents
      (omega arith) refl (omega arith) (omega arith)
