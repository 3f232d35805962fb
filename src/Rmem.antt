-- ===== src/Rmem.antt =====
-- src/sys/mm/rmem/main.c: the server of remote memory, with the addresses of
-- include/nanvix/servers/rmem.h. Clocks and console output are left out; what a client
-- sends over its portal is an argument, and what the server sends is a result. The node and the ports
-- of a client go to the kernel alone, and what it answers is a field of the request.
mod Tests
pub mod Address
pub mod Valid
pub mod Alloc
pub mod Access
use Prim.Native.Nat.{bit_or}
use multikernel.Common.{
  ℕ, ◌+◌, ◌-◌, ◌*◌, ◌/◌, ◌%◌, ◌^◌, ◌==◌, ◌==ℤ◌, leb, Bool, true, false, ◌&&◌, ◌||◌, not, Channels,
  Option, none, some, List, [], ◌∷◌, ℤ, pos, negsuc, update, if◌then◌else◌, Result, ok, err, Status,
  enomem, efault, einval, enosys,
}
use multikernel.Bitmap.{
  Bitmap, bitmap_set, bitmap_clear, bitmap_check_bit, bitmap_first_free, bitmap_full,
}

-- RMEM_NULL, RMEM_BLOCK_SIZE, RMEM_NUM_BLOCKS
abbrev pub rmem_null : ℕ
rmem_null = 0

abbrev pub rmem_block_size : ℕ
rmem_block_size = 4096

abbrev pub rmem_num_blocks : ℕ
rmem_num_blocks = 32 * 1024 * 1024 / rmem_block_size

-- RMEM_BLOCK_NUM, RMEM_BLOCK_SERVER and RMEM_BLOCK: a block number in the low 24 bits, a server
-- number in the 8 bits above.
unfoldable pub rmem_block_num : ℕ → ℕ
rmem_block_num x = x % 2 ^ 24

unfoldable pub rmem_block_server : ℕ → ℕ
rmem_block_server x = x / 2 ^ 24 % 2 ^ 8

unfoldable pub rmem_block : ℕ → ℕ → ℕ
rmem_block server num = bit_or (server % 2 ^ 8 * 2 ^ 24) (num % 2 ^ 24)

-- The RMEM_BLOCK_SIZE bytes of a block, by their offset.
abbrev pub Block : Type 0
Block = ℕ → ℕ

abbrev pub zero_block : Block
zero_block k = 0

-- `rmem`, the counters of `stats`, and `serverid`
pub record Rmem : Type 0 where
  pub blocks : ℕ → Block
  pub owners : ℕ → ℤ
  pub bitmap : Bitmap
  pub nblocks : ℕ
  pub nallocs : ℕ
  pub nfrees : ℕ
  pub nreads : ℕ
  pub nwrites : ℕ
  pub serverid : ℕ

-- `x++` and `x--` on an `unsigned`
abbrev pub inc : ℕ → ℕ
inc x = (x + 1) % 2 ^ 32

abbrev pub dec : ℕ → ℕ
dec x = (x + 2 ^ 32 - 1) % 2 ^ 32

-- `struct rmem_message`, as far as the server reads it, with the kernel's answers on its ports
pub record Request : Type 0 where
  pub source : ℕ
  pub opcode : ℕ
  pub blknum : ℕ
  pub channels : Channels

-- A bit, its owner, and the number that goes back to the client.
pub take_block : Rmem → ℤ → ℕ → Result ℕ × Rmem
take_block s owner bit = (
  ok (rmem_block s.serverid bit),
  record s {
    nblocks = inc s.nblocks;
    bitmap = bitmap_set s.bitmap bit;
    owners = update s.owners bit owner;
  },
)

-- `uassert(bit != BITMAP_FULL)`: `none` is the server's stop.
pub take_found : Rmem → ℤ → Option ℕ → Option (Result ℕ × Rmem)
take_found s owner none = none
take_found s owner (some bit) = if bit == bitmap_full then none else some (take_block s owner bit)

-- The result is what `do_rmem_alloc` returns, with the block number of the response for zero.
pub do_rmem_alloc : Rmem → Request → Option (Result ℕ × Rmem)
unfolding take_found take_block
do_rmem_alloc s request =
    if s.nblocks == rmem_num_blocks
    then some (err enomem, s)
    else take_found s (pos request.source) (bitmap_first_free s.bitmap (rmem_num_blocks / 32 * 4))

-- `(_blknum == RMEM_NULL) || (_blknum >= RMEM_NUM_BLOCKS)`
abbrev pub is_invalid : ℕ → Bool
is_invalid b = b == rmem_null || leb rmem_num_blocks b

abbrev pub is_clear : Rmem → ℕ → Bool
is_clear s b = bitmap_check_bit s.bitmap b == 0

pub free_block : Rmem → ℕ → Rmem
free_block s b = record s {
  blocks = update s.blocks b zero_block;
  nblocks = dec s.nblocks;
  bitmap = bitmap_clear s.bitmap b;
}

pub do_rmem_free : Rmem → Request → Status × Rmem
unfolding free_block rmem_block_num
do_rmem_free s request =
    let b = rmem_block_num request.blknum in
    if is_invalid b
    then (err einval, s)
    else if s.nblocks == 1
    then (err efault, s)
    else if is_clear s b
    then (err efault, s)
    else if not (s.owners b ==ℤ pos request.source)
    then (err efault, s)
    else (ok tt, free_block s b)

-- The block that the portal reads into: the null block for one that is not allocated.
abbrev pub target : Rmem → ℕ → ℕ
target s b = if is_clear s b then 0 else b

abbrev pub access_status : Rmem → ℕ → Status
access_status s b = if is_clear s b then err efault else ok tt

-- `incoming` is the block that the client writes to the portal; `none` is a failed assertion on a
-- call of the kernel.
pub do_rmem_write : Rmem → Request → Block → Option (Status × Rmem)
unfolding rmem_block_num
do_rmem_write s request incoming =
    let b = rmem_block_num request.blknum in
    if is_invalid b
    then some (err einval, s)
    else if not request.channels.inportal
    then none
    else some (access_status s b, record s { blocks = update s.blocks (target s b) incoming })

-- The status, and the block that goes to the client's portal, if one does; `none` is a failed
-- assertion on a call of the kernel.
pub do_rmem_read : Rmem → Request → Option (Status × Option Block)
unfolding rmem_block_num
do_rmem_read s request =
    let b = rmem_block_num request.blknum in
    if is_invalid b
    then some (err einval, none)
    else if not (request.channels.outbox && request.channels.outportal)
    then none
    else some (access_status s b, some (s.blocks (target s b)))

-- RMEM_EXIT, RMEM_READ, RMEM_WRITE, RMEM_ALLOC, RMEM_MEMFREE
abbrev pub rmem_exit : ℕ
rmem_exit = 0

abbrev pub rmem_read : ℕ
rmem_read = 1

abbrev pub rmem_write : ℕ
rmem_write = 2

abbrev pub rmem_alloc : ℕ
rmem_alloc = 3

abbrev pub rmem_memfree : ℕ
rmem_memfree = 4

-- What one round of the server's loop leaves: the state, the reply if one is sent (with the number
-- of an allocated block), the block sent over the portal, and whether the loop ends.
pub record Round : Type 0 where
  pub state : Rmem
  pub reply : Option (Result (Option ℕ))
  pub sent : Option Block
  pub shutdown : Bool

abbrev pub status_reply : Status → Result (Option ℕ)
status_reply (ok u) = ok none
status_reply (err e) = err e

abbrev pub number_reply : Result ℕ → Result (Option ℕ)
number_reply (ok n) = ok (some n)
number_reply (err e) = err e

-- The end of a round that replies, which asserts that the client's mailbox takes the reply
abbrev pub replied : Request → Rmem → Result (Option ℕ) → Option Block → Option Round
replied request s r sent =
    if request.channels.outbox
    then some (record { state = s; reply = some r; sent = sent; shutdown = false })
    else none

abbrev pub alloc_round : Request → Option (Result ℕ × Rmem) → Option Round
alloc_round request none = none
alloc_round request (some (r, s)) = replied request s (number_reply r) none

abbrev pub write_round : Request → Option (Status × Rmem) → Option Round
write_round request none = none
write_round request (some (r, s)) = replied request s (status_reply r) none

abbrev pub read_round : Request → Rmem → Option (Status × Option Block) → Option Round
read_round request s none = none
read_round request s (some (r, out)) = replied request s (status_reply r) out

-- One round of the loop: the `switch` of `do_rmem_loop`. `none` is a stop by a failed assertion.
pub rmem_round : Rmem → Request → Block → Option Round
rmem_round s request incoming =
    if request.opcode == rmem_write
    then write_round request (do_rmem_write (record s { nwrites = inc s.nwrites }) request incoming)
    else if request.opcode == rmem_read
    then (let s' = record s { nreads = inc s.nreads } in
        read_round request s' (do_rmem_read s' request))
    else if request.opcode == rmem_alloc
    then alloc_round request (do_rmem_alloc (record s { nallocs = inc s.nallocs }) request)
    else if request.opcode == rmem_memfree
    then (let (r, s') = do_rmem_free (record s { nfrees = inc s.nfrees }) request in
        replied request s' (status_reply r) none)
    else some
        (record { state = s; reply = none; sent = none; shutdown = request.opcode == rmem_exit })

-- The loop, over the requests in the order in which they arrive, each with what the client sends.
-- It ends by a request to exit; with no more requests it waits, in the state that it has.
pub do_rmem_loop : Rmem → List (Request × Block) → Option Rmem
do_rmem_loop s [] = some s
do_rmem_loop s ((request, incoming) ∷ rest) = elim (rmem_round s request incoming) [
  | none ↦ none
  | some out ↦ elim out.shutdown [ true ↦ some out.state | false ↦ do_rmem_loop out.state rest ]
]

-- What `do_rmem_startup` leaves, for a server of the given number: every block clean, and the
-- null block taken. `owners` is static data, which starts as zeros.
pub do_rmem_startup : ℕ → Rmem
do_rmem_startup serverid = record {
  blocks = λ i. zero_block;
  owners = λ i. pos 0;
  bitmap = bitmap_set (λ i. 0) 0;
  nblocks = inc 0;
  nallocs = 0;
  nfrees = 0;
  nreads = 0;
  nwrites = 0;
  serverid = serverid;
}
