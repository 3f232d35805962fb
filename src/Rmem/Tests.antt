-- ===== src/Rmem/Tests.antt =====
-- Tests of the server of remote memory: two clients, and the first block taken by one of them.
use multikernel.Common.{
  arith, true, Channels, IsOpen, ◌<◌, ◌≡◌, refl, ◌∷◌, [], some, pos, search_array, ok, ◌==◌,
  if◌then◌else◌,
}
use multikernel.Bitmap.{bitmap_first_free, bitmap_set}
use multikernel.Bitmap.Laws.{bit, bit-set}
use multikernel.Rmem.{
  Rmem, Request, Block, zero_block, rmem_block, rmem_block_num, take_block, take_found,
  do_rmem_startup, do_rmem_alloc, do_rmem_write, do_rmem_loop, rmem_alloc, rmem_write, rmem_read,
}
use multikernel.Rmem.Valid.{IsValid, do_rmem_startup-IsValid, take_block-IsValid}
use multikernel.Rmem.Alloc.{
  AllocatesLowest, FreesOwned, Allocated, do_rmem_alloc_lem, do_rmem_alloc-Allocated,
  do_rmem_free_lem,
}
use multikernel.Rmem.Access.{Names, read_after, Runs, read-write, do_rmem_loop-Runs}

abbrev started : Rmem
started = do_rmem_startup 2

started-IsValid : IsValid started
started-IsValid = do_rmem_startup-IsValid 2

abbrev opens : Channels
opens = record { outbox = true; outportal = true; inportal = true }

opens-IsOpen : IsOpen opens
opens-IsOpen = (refl, refl, refl)

abbrev ask_alloc : Request
ask_alloc = record { source = 3; opcode = rmem_alloc; blknum = 0; channels = opens }

-- For block 1 of server 2, which is at 2 * 2 ^ 24 + 1
abbrev ask_first : Request
ask_first = record { source = 3; opcode = rmem_write; blknum = 33554433; channels = opens }

abbrev ask_read : Request
ask_read = record { source = 4; opcode = rmem_read; blknum = 33554434; channels = opens }

abbrev sevens : Block
sevens k = 7

abbrev one_taken : Rmem
one_taken = (take_block started (pos 3) 1).1

do_rmem_loop-Runs_example :
    Runs (do_rmem_loop started ((ask_alloc, zero_block) ∷ (ask_first, sevens) ∷ []))
do_rmem_loop-Runs_example =
    do_rmem_loop-Runs started ((ask_alloc, zero_block) ∷ (ask_first, sevens) ∷ []) started-IsValid
      (opens-IsOpen, (opens-IsOpen, tt))

do_rmem_alloc_example : AllocatesLowest started ask_alloc
do_rmem_alloc_example = do_rmem_alloc_lem started ask_alloc started-IsValid

first_clear : bit started.bitmap 1 ≡ 0
unfolding do_rmem_startup
first_clear = bit-set (λ i. 0) 0 1

second_clear : bit started.bitmap 2 ≡ 0
unfolding do_rmem_startup
second_clear = bit-set (λ i. 0) 0 2

first_taken : bit one_taken.bitmap 1 ≡ 1
unfolding take_block
first_taken = bit-set started.bitmap 1 1

allocates : do_rmem_alloc started ask_alloc ≡ some (ok 33554433, one_taken)
unfolding do_rmem_alloc do_rmem_startup bitmap_first_free take_found take_block rmem_block
    bitmap_set search_array
allocates = refl

started_below : started.serverid < 256
unfolding do_rmem_startup
started_below = omega arith

do_rmem_alloc-Allocated_example : Allocated started one_taken ask_alloc (rmem_block_num 33554433)
do_rmem_alloc-Allocated_example =
    do_rmem_alloc-Allocated started one_taken ask_alloc 33554433 started-IsValid started_below
      allocates

do_rmem_free_example : FreesOwned one_taken ask_first
do_rmem_free_example =
    do_rmem_free_lem one_taken ask_first
      (take_block-IsValid started (pos 3) 1 started-IsValid (omega arith) first_clear)

names_first : Names ask_first 1
unfolding rmem_block_num
names_first = (refl, (λ e. omega arith), omega arith)

names_second : Names ask_read 2
unfolding rmem_block_num
names_second = (refl, (λ e. omega arith), omega arith)

read-write_example :
    read_after (do_rmem_write one_taken ask_first sevens) ask_first
    ≡ some (ok tt, some (if 1 == 1 then sevens else one_taken.blocks 1))
read-write_example =
    read-write one_taken ask_first ask_first sevens 1 1 names_first names_first first_taken
      first_taken opens-IsOpen opens-IsOpen
