-- ===== src/Rmem/Access.antt =====
-- Reads and writes of remote blocks, and the rounds of the server's loop.
use multikernel.Common.{
  pos, ℕ, ◌/◌, ◌%◌, ◌<◌, ◌≡◌, ◌≢◌, inl, inr, some, none, arith, ◌==◌, if◌then◌else◌, ==_iff, refl,
  false, none, Bool-cases, Option-cases, update, IsOpen, Result, ok, err, Status, efault, Option,
  List, [], ◌∷◌,
}
use multikernel.Bits.{digit-lt}
use multikernel.Bitmap.Laws.{bit, check-bit}
use multikernel.Rmem.{
  Rmem, Request, Block, Round, rmem_num_blocks, rmem_null, rmem_block_num, is_invalid, is_clear,
  target, replied, write_round, read_round, do_rmem_write, do_rmem_read, do_rmem_alloc, rmem_round,
  do_rmem_loop, inc, alloc_round, rmem_read, rmem_write, rmem_alloc, rmem_memfree,
}
use multikernel.Rmem.Valid.{IsValid, write-IsValid, take_block-IsValid}
use multikernel.Rmem.Alloc.{do_rmem_alloc_lem, do_rmem_free-IsValid}

-- The block that a request names is one of the server's, and not the null block.
abbrev pub Names : Request → ℕ → Type 0
Names request b = (rmem_block_num request.blknum ≡ b) × (b ≢ rmem_null) × (b < rmem_num_blocks)

-- A write to an allocated block succeeds and replaces that block's content alone; a read of an
-- allocated block succeeds and sends its content.
pub allocated_access :
    (s : Rmem) (request : Request) (incoming : Block) (b : ℕ)
    → Names request b
    → bit s.bitmap b ≡ 1
    → IsOpen request.channels
    → (do_rmem_write s request incoming
        ≡ some (ok tt, record s { blocks = update s.blocks b incoming }))
      × (do_rmem_read s request ≡ some (ok tt, some (s.blocks b)))
unfolding do_rmem_write do_rmem_read
allocated_access s request incoming b (e, ne, lt) set (h, h', h'') =
    rw (e, h, h', h'') (ground (arith, check-bit s.bitmap b), ground (arith, check-bit s.bitmap b))

-- A write to a block that is not allocated fails with EFAULT, but replaces the null block's
-- content; a read of one fails with EFAULT, and sends the null block's content.
pub free_access :
    (s : Rmem) (request : Request) (incoming : Block) (b : ℕ)
    → Names request b
    → bit s.bitmap b ≡ 0
    → IsOpen request.channels
    → (do_rmem_write s request incoming
        ≡ some (err efault, record s { blocks = update s.blocks rmem_null incoming }))
      × (do_rmem_read s request ≡ some (err efault, some (s.blocks rmem_null)))
unfolding do_rmem_write do_rmem_read
free_access s request incoming b (e, ne, lt) clear (h, h', h'') =
    rw (e, h, h', h'') (ground (arith, check-bit s.bitmap b), ground (arith, check-bit s.bitmap b))

-- A request to read an allocated block sends its content, with a reply that it has succeeded.
pub rmem_round-read :
    (s : Rmem) (request : Request) (incoming : Block) (b : ℕ)
    → request.opcode ≡ rmem_read
    → Names request b
    → bit s.bitmap b ≡ 1
    → IsOpen request.channels
    → (s' : Rmem) × (rmem_round s request incoming
        ≡ some (record {
          state = s';
          reply = some (ok none);
          sent = some (s.blocks b);
          shutdown = false;
        }))
unfolding rmem_round
rmem_round-read s request incoming b op names set (h, h', h'') = (
  record s { nreads = inc s.nreads },
  rw (not_write request.opcode op, (==_iff request.opcode rmem_read).1 op)
      (rw
        (allocated_access (record s { nreads = inc s.nreads }) request incoming b names set
          (h, h', h'')).1
        (rw h refl)),
)
  where
    not_write : (op : ℕ) → op ≡ rmem_read → (op == rmem_write) ≡ false
    not_write op e = ground (arith, e)

-- What a read sends after a write, where the write is served
abbrev pub read_after : Option (Status × Rmem) → Request → Option (Status × Option Block)
read_after none rd = none
read_after (some (r, s)) rd = do_rmem_read s rd

-- Where the calls of the kernel on the clients' ports succeed, what is written to an allocated block
-- is what a later read of that block sends, and a read of another allocated block sends what it did
-- before.
pub read-write :
    (s : Rmem) (wr rd : Request) (incoming : Block) (b c : ℕ)
    → Names wr b
    → Names rd c
    → bit s.bitmap b ≡ 1
    → bit s.bitmap c ≡ 1
    → IsOpen wr.channels
    → IsOpen rd.channels
    → read_after (do_rmem_write s wr incoming) rd
      ≡ some (ok tt, some (if b == c then incoming else s.blocks c))
read-write s wr rd incoming b c nb nc hb hc ow rr =
    rw (allocated_access s wr incoming b nb hb ow).0
      (allocated_access (record s { blocks = update s.blocks b incoming }) rd incoming c nc hc rr).1

-- The block that one client writes to an address that is not allocated reaches any client that then
-- reads an address that is not allocated.
pub null_block_leaks :
    (s : Rmem) (wr rd : Request) (secret : Block) (b c : ℕ)
    → Names wr b
    → Names rd c
    → bit s.bitmap b ≡ 0
    → bit s.bitmap c ≡ 0
    → IsOpen wr.channels
    → IsOpen rd.channels
    → read_after (do_rmem_write s wr secret) rd ≡ some (err efault, some secret)
null_block_leaks s wr rd secret b c nb nc hb hc ow rr =
    rw (free_access s wr secret b nb hb ow).0
      (free_access (record s { blocks = update s.blocks rmem_null secret }) rd secret c nc hc rr).1

target-used : (s : Rmem) (b : ℕ) → IsValid s → bit s.bitmap (target s b) ≡ 1
target-used s b v = elim (Bool-cases (is_clear s b)) [
  | inl clear ↦ rw clear v.null_used
  | inr set ↦ rw set (ground (arith, check-bit s.bitmap b, digit-lt (s.bitmap (b / 32)) (b % 32)))
]

-- A round that stops at no assertion, and leaves a valid state.
abbrev pub Serves : Option Round → Type 0
Serves none = ⊥
Serves (some out) = IsValid out.state

replied-Serves :
    (request : Request) (s : Rmem) (r : Result (Option ℕ)) (sent : Option Block)
    → IsOpen request.channels
    → IsValid s
    → Serves (replied request s r sent)
replied-Serves request s r sent (h, _, _) v = rw h v

write_round-Serves :
    (s : Rmem) (request : Request) (incoming : Block)
    → IsValid s
    → IsOpen request.channels
    → Serves (write_round request (do_rmem_write s request incoming))
unfolding do_rmem_write
write_round-Serves s request incoming v (h, _, h'') =
    elim (Bool-cases (is_invalid (rmem_block_num request.blknum))) [
      | inl bad ↦ rw (bad, h) v
      | inr good ↦
          rw (good, h, h'')
            (write-IsValid s (target s (rmem_block_num request.blknum)) incoming v
              (target-used s (rmem_block_num request.blknum) v))
    ]

-- The counters of the statistics do not matter to the invariant.
recounted :
    (s : Rmem) (a f r w : ℕ)
    → IsValid s
    → IsValid (record s { nallocs = a; nfrees = f; nreads = r; nwrites = w })
recounted s a f r w v = record {
  words = v.words;
  counted = v.counted;
  null_used = v.null_used;
  clean = v.clean;
}

read_round-Serves :
    (s : Rmem) (request : Request)
    → IsValid s
    → IsOpen request.channels
    → Serves (read_round request s (do_rmem_read s request))
unfolding do_rmem_read
read_round-Serves s request v (h, h', _) =
    elim (Bool-cases (is_invalid (rmem_block_num request.blknum))) [
      | inl bad ↦ rw (bad, h) v
      | inr good ↦ rw (good, h, h') v
    ]

alloc_round-Serves :
    (s : Rmem) (request : Request)
    → IsValid s
    → IsOpen request.channels
    → Serves (alloc_round request (do_rmem_alloc s request))
alloc_round-Serves s request v (h, _, _) = elim (do_rmem_alloc_lem s request v) [
  | inl (_, e) ↦ rw (e, h) v
  | inr (b, _, (_, lt, clear, _, e), _) ↦
      rw (e, h) (take_block-IsValid s (pos request.source) b v lt clear)
]

-- In a valid state every request with channels that open is served without a failed assertion, and
-- leaves a valid state.
pub rmem_round-Serves :
    (s : Rmem) (request : Request) (incoming : Block)
    → IsValid s
    → IsOpen request.channels
    → Serves (rmem_round s request incoming)
unfolding rmem_round
rmem_round-Serves s request incoming v opens = elim (Bool-cases (request.opcode == rmem_write)) [
  | inl w ↦ rw w (
      write_round-Serves _ request incoming
        (recounted s s.nallocs s.nfrees s.nreads (inc s.nwrites) v) opens)
  | inr nw ↦ elim (Bool-cases (request.opcode == rmem_read)) [
    | inl r ↦
        rw (nw, r)
          (read_round-Serves _ request (recounted s s.nallocs s.nfrees (inc s.nreads) s.nwrites v)
            opens)
    | inr nr ↦ elim (Bool-cases (request.opcode == rmem_alloc)) [
      | inl a ↦
          rw (nw, nr, a)
            (alloc_round-Serves _ request
              (recounted s (inc s.nallocs) s.nfrees s.nreads s.nwrites v) opens)
      | inr na ↦ elim (Bool-cases (request.opcode == rmem_memfree)) [
        | inl f ↦
            rw (nw, nr, na, f)
              (replied-Serves request _ _ none opens (
                do_rmem_free-IsValid _ request
                  (recounted s s.nallocs (inc s.nfrees) s.nreads s.nwrites v)))
        | inr nf ↦ rw (nw, nr, na, nf) v
      ]
    ]
  ]
]

abbrev pub Runs : Option Rmem → Type 0
Runs none = ⊥
Runs (some s) = IsValid s

abbrev pub AllOpen : List (Request × Block) → Type 0
AllOpen [] = Unit {0}
AllOpen ((request, incoming) ∷ rest) = IsOpen request.channels × AllOpen rest

-- From a valid state, and where the calls of the kernel on the clients' ports succeed, the loop meets
-- no failed assertion, whatever the requests ask for, and the state that it reaches is valid.
pub do_rmem_loop-Runs :
    (s : Rmem) (requests : List (Request × Block))
    → IsValid s
    → AllOpen requests
    → Runs (do_rmem_loop s requests)
unfolding do_rmem_loop
do_rmem_loop-Runs s [] v opens = v
do_rmem_loop-Runs s ((request, incoming) ∷ rest) v (opens, others) =
    elim (Option-cases (rmem_round s request incoming)) [
      | inl e ↦ absurd (rw e at (rmem_round-Serves s request incoming v opens))
      | inr (out, e) ↦
          let valid : IsValid out.state = rw e at (rmem_round-Serves s request incoming v opens) in
          elim (Bool-cases out.shutdown) [
            | inl stop ↦ rw (e, stop, do_rmem_loop) valid
            | inr go_on ↦
                rw (e, go_on, do_rmem_loop) (do_rmem_loop-Runs out.state rest valid others)
          ]
    ]
