-- ===== src/Rmem/Address.antt =====
-- Remote addresses: the block and the server that one is built from are read back.
use multikernel.Common.{ℕ, ◌+◌, ◌*◌, ◌%◌, ◌^◌, ◌<◌, ◌≡◌, arith}
use multikernel.Bits.{bit_or_disjoint}
use multikernel.Rmem.{rmem_block_num, rmem_block_server, rmem_block}

rmem_block_sum : (server num : ℕ) → rmem_block server num ≡ server % 2 ^ 8 * 2 ^ 24 + num % 2 ^ 24
unfolding rmem_block
rmem_block_sum server num = bit_or_disjoint 24 (server % 2 ^ 8) (num % 2 ^ 24) (omega arith)

-- An address built from a server number below 256 and a block number below 2 ^ 24 gives back both,
-- and is a word of 32 bits.
pub rmem_block_roundtrip :
    (server num : ℕ)
    → server < 256
    → num < 2 ^ 24
    → (rmem_block_num (rmem_block server num) ≡ num)
      × (rmem_block_server (rmem_block server num) ≡ server)
      × (rmem_block server num < 2 ^ 32)
unfolding rmem_block_num rmem_block_server
rmem_block_roundtrip server num hs hn = omega (arith, rmem_block_sum server num)
