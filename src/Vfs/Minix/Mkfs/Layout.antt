-- ===== src/Vfs/Minix/Mkfs/Layout.antt =====
-- Where a new file system keeps its i-nodes.
use multikernel.Common.{
  ℕ, ◌+◌, ◌*◌, ◌/◌, ◌%◌, ◌^◌, ◌<◌, ◌≤◌, ◌≡◌, inl, inr, arith, Bool-cases, ◌==◌,
}
use multikernel.Vfs.Minix.{minix_block_size, sizeof_d_inode}
use multikernel.Vfs.Minix.Inode.{minix_inode_offset}
use multikernel.Vfs.Minix.Mkfs.{minix_block_bit_length, new_super, round}

round_le : (x n : ℕ) → x ≤ n → 1 ≤ n → round x ≤ n
round_le x n le one = elim (Bool-cases (x == 0)) [ inl t ↦ rw t one | inr f ↦ rw f le ]

le_round : (x : ℕ) → x ≤ round x
le_round x = elim (Bool-cases (x == 0)) [
  | inl t ↦ rw t (ground (arith, t))
  | inr f ↦ rw f (omega arith)
]

offset_before :
    (m t num ninodes : ℕ)
    → m ≤ 18
    → t ≤ 2048
    → ninodes * 32 / 1024 ≤ t
    → ninodes % 32 ≡ 0
    → num < ninodes
    → (m * 1024 ≤ (m + num / 32) * 1024 + num % 32 * 32)
      × ((m + num / 32) * 1024 + num % 32 * 32 + 32 ≤ (m + t) % 65536 * 1024)
offset_before m t num ninodes le le' fits whole below = (omega arith, omega arith)

-- In a new file system whose number of i-nodes is a multiple of 32 and of 16 bits, as the number of
-- blocks is, every i-node of the table lies behind the two maps and before the first data block.
pub new_super-inodes :
    (ninodes nblocks unused num : ℕ)
    → ninodes < 2 ^ 16
    → nblocks < 2 ^ 16
    → ninodes % 32 ≡ 0
    → num < ninodes
    → let sb = new_super ninodes nblocks unused in
      ((2 + sb.s_imap_nblocks + sb.s_bmap_nblocks) * minix_block_size ≤ minix_inode_offset sb num)
      × (minix_inode_offset sb num + sizeof_d_inode ≤ sb.s_first_data_block * minix_block_size)
unfolding new_super
new_super-inodes ninodes nblocks unused num lt lt' whole below =
    offset_before
      (2 + round (ninodes / minix_block_bit_length) + round (nblocks / minix_block_bit_length))
      (round (ninodes * sizeof_d_inode / minix_block_size)) num ninodes
      (sum_le (round_le (ninodes / minix_block_bit_length) 8 (omega arith) (omega arith))
        (round_le (nblocks / minix_block_bit_length) 8 (omega arith) (omega arith)))
      (round_le (ninodes * sizeof_d_inode / minix_block_size) 2048 (omega arith) (omega arith))
      (le_round (ninodes * sizeof_d_inode / minix_block_size)) whole below
  where
    sum_le : {a b : ℕ} → a ≤ 8 → b ≤ 8 → 2 + a + b ≤ 18
    sum_le h k = omega arith
