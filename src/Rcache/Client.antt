-- ===== src/Rcache/Client.antt =====
-- src/libruntime/mm/stub.c: the client of remote memory, over the rounds of the servers. The
-- configuration of the machine and the kernel are parameters; a null buffer, the channels that the
-- client opens, and the statistics are left out.
use multikernel.Common.{
  ℕ, ◌+◌, ◌%◌, ◌^◌, Bool, ◌||◌, not, Option, none, some, leb, ltb, ◌==◌, if◌then◌else◌, update,
  Channels, Result, ok, err, Status, einval,
}
use multikernel.Rmem.{
  Rmem, Request, Block, Round, zero_block, rmem_null, rmem_block_size, rmem_num_blocks,
  rmem_block_num, rmem_block_server, rmem_read, rmem_write, rmem_alloc, rmem_memfree, rmem_round,
}

-- RMEM_SERVERS_NUM, which is the machine's, the node of the process, and the kernel's answers on its
-- ports
pub record RmemClient : Type 0 where
  pub rmem_servers_num : ℕ
  pub node : ℕ
  pub channels : Channels

-- The servers, which connections of `server` are initialized, and `nallocs`
pub record Remote : Type 0 where
  pub servers : ℕ → Rmem
  pub initialized : ℕ → Bool
  pub nallocs : ℕ

module _ (client : RmemClient) where
  abbrev pub request_for : ℕ → ℕ → Request
  request_for opcode blknum = record {
    source = client.node;
    opcode = opcode;
    blknum = blknum;
    channels = client.channels;
  }

  abbrev pub served : Remote → ℕ → Option Round → Option (Round × Remote)
  served r i none = none
  served r i (some out) = some (out, record r { servers = update r.servers i out.state })

  -- A message to a server and its round
  abbrev pub call : Remote → ℕ → Request → Block → Option (Round × Remote)
  call r i request outgoing = served r i (rmem_round (r.servers i) request outgoing)

  -- `server[serverid].initialized`; `none` is an access outside of the array.
  abbrev pub with_server {ℓ} : {A : Type ℓ} → Remote → ℕ → A → Option A → Option A
  with_server r i refusal next =
      if not (ltb i client.rmem_servers_num)
      then none
      else if not (r.initialized i)
      then some refusal
      else next

  -- `(blknum == RMEM_NULL) || (RMEM_BLOCK_NUM(blknum) >= RMEM_NUM_BLOCKS)`
  abbrev pub is_bad_block : ℕ → Bool
  is_bad_block blknum = blknum == rmem_null || leb rmem_num_blocks (rmem_block_num blknum)

  -- `(msg.errcode < 0) ? 0 : RMEM_BLOCK_SIZE`
  abbrev pub count_of : Option (Result (Option ℕ)) → ℕ
  count_of none = 0
  count_of (some (ok n)) = rmem_block_size
  count_of (some (err e)) = 0

  -- After the server's round; without a block the assertion on RMEM_ACK fails.
  abbrev pub read_sent : Round → Remote → Option Block → Option (ℕ × Block × Remote)
  read_sent out r none = none
  read_sent out r (some page) = some (count_of out.reply, page, r)

  abbrev pub read_reply : Option (Round × Remote) → Option (ℕ × Block × Remote)
  read_reply none = none
  read_reply (some (out, r)) = read_sent out r out.sent

  -- The count that is returned, a `size_t`, and what the buffer holds after. `none` is a failed
  -- assertion, in the client or in the server.
  unfoldable pub nanvix_rmem_read : Remote → ℕ → Block → Option (ℕ × Block × Remote)
  nanvix_rmem_read r blknum buf =
      if is_bad_block blknum
      then some (0, buf, r)
      else with_server r (rmem_block_server blknum) (0, buf, r)
          (read_reply (call r (rmem_block_server blknum) (request_for rmem_read blknum) zero_block))

  abbrev pub write_reply : Option (Round × Remote) → Option (ℕ × Remote)
  write_reply none = none
  write_reply (some (out, r)) = some (count_of out.reply, r)

  pub nanvix_rmem_write : Remote → ℕ → Block → Option (ℕ × Remote)
  nanvix_rmem_write r blknum buf =
      if is_bad_block blknum
      then some (0, r)
      else with_server r (rmem_block_server blknum) (0, r)
          (write_reply (call r (rmem_block_server blknum) (request_for rmem_write blknum) buf))

  -- An allocation that is refused does not count.
  abbrev pub alloc_numbered : Remote → Option (Result (Option ℕ)) → ℕ × Remote
  alloc_numbered r (some (ok (some n))) = (n, record r { nallocs = (r.nallocs + 1) % 2 ^ 32 })
  alloc_numbered r (some (ok none)) = (rmem_null, r)
  alloc_numbered r (some (err e)) = (rmem_null, r)
  alloc_numbered r none = (rmem_null, r)

  abbrev pub alloc_reply : Option (Round × Remote) → Option (ℕ × Remote)
  alloc_reply none = none
  alloc_reply (some (out, r)) = some (alloc_numbered r out.reply)

  pub nanvix_rmem_alloc : Remote → Option (ℕ × Remote)
  nanvix_rmem_alloc r =
      let i = r.nallocs % client.rmem_servers_num in
      with_server r i (rmem_null, r)
        (alloc_reply (call r i (request_for rmem_alloc rmem_null) zero_block))

  abbrev pub status_of : Option (Result (Option ℕ)) → Status
  status_of none = ok tt
  status_of (some (ok n)) = ok tt
  status_of (some (err e)) = err e

  abbrev pub free_reply : Option (Round × Remote) → Option (Status × Remote)
  free_reply none = none
  free_reply (some (out, r)) = some (status_of out.reply, r)

  pub nanvix_rmem_free : Remote → ℕ → Option (Status × Remote)
  nanvix_rmem_free r blknum =
      if is_bad_block blknum
      then some (err einval, r)
      else with_server r (rmem_block_server blknum) (err einval, r)
          (free_reply
            (call r (rmem_block_server blknum) (request_for rmem_memfree blknum) zero_block))
