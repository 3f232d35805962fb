-- ===== src/Sysv/Msg/Init.antt =====
-- The start of the message service: each queue gets a buffer of its own.
use multikernel.Common.{
  ℕ, zero, suc, ◌+◌, ◌<◌, ◌≤◌, [], ◌≡◌, refl, inl, inr, false, some, ◌==◌, Bool-cases, update,
  search_of_First, arith,
}
use multikernel.Sysv.Resource.{ResourceOps}
use multikernel.Sysv.Msgbuf.{Msgbuf, msg_max, fresh, msgbuf_alloc, msgbuf_init}
use multikernel.Sysv.Msgbuf.Fifo
use multikernel.Sysv.Msg.{Mqueue, Msgs, init_queue, init_queues, do_msg_init}

module _ (ops : ResourceOps) where
  open ops use {initializer, is_used, initializer_unused}

  -- Every queue has a buffer in use, and no two queues share one.
  pub record IsValid (s : Msgs ops) : Type 0 where
    pub owns : (i : ℕ) → i < msg_max → (s.mqueues i).buf ≡ some i
    pub valid : (i : ℕ) → i < msg_max → Fifo.IsValid (s.buffers i)

  -- After `n` rounds: the first `n` queues have theirs, and the other buffers are free.
  record Ready (n : ℕ) (s : Msgs ops) : Type 0 where
    owned : (i : ℕ) → i < n → (s.mqueues i).buf ≡ some i
    unused : (i : ℕ) → i < n → (s.mqueues i).resource ≡ initializer
    busy : (i : ℕ) → i < n → Fifo.IsValid (s.buffers i)
    free : (i : ℕ) → n ≤ i → (s.buffers i).size ≡ 0
    empty : (i : ℕ) → (s.buffers i).len ≡ 0

  alloc_next :
      (s : Msgs ops) (n : ℕ)
      → Ready n s
      → n < msg_max
      → msgbuf_alloc s.buffers ≡ (some n, update s.buffers n (fresh (s.buffers n)))
  unfolding msgbuf_alloc
  alloc_next s n r lt =
      rw
        (search_of_First (λ i. (s.buffers i).size == 0) msg_max n
          (record {
            within = lt;
            passes = ground (arith, r.free n);
            earlier = λ j below. ground (arith, (r.busy j below).sized);
          }))
        refl

  fresh-IsValid : (b : Msgbuf) → b.len ≡ 0 → Fifo.IsValid (fresh b)
  fresh-IsValid b e = record {
    sized = refl;
    bounded = omega arith;
    head_within = omega arith;
    aligned = omega arith;
    closed = omega arith;
  }

  init_queue-Ready :
      (s : Msgs ops) (n : ℕ)
      → Ready n s
      → n < msg_max
      → Ready (suc n) (init_queue ops s n (msgbuf_alloc s.buffers))
  init_queue-Ready s n r lt = rw (alloc_next s n r lt) (record {
    owned = λ j below. elim (Bool-cases (n == j)) [
      | inl hit ↦ rw hit (ground arith)
      | inr miss ↦ rw miss (r.owned j (ground arith))
    ];
    unused = λ j below. elim (Bool-cases (n == j)) [
      | inl hit ↦ rw hit refl
      | inr miss ↦ rw miss (r.unused j (ground arith))
    ];
    busy = λ j below. elim (Bool-cases (n == j)) [
      | inl hit ↦ rw hit (fresh-IsValid (s.buffers n) (r.empty n))
      | inr miss ↦ rw miss (r.busy j (ground arith))
    ];
    free = λ j below. elim (Bool-cases (n == j)) [
      | inl hit ↦ absurd (ground arith)
      | inr miss ↦ rw miss (r.free j (omega arith))
    ];
    empty = λ j. ground (arith, r.empty j, r.empty n);
  })

  add_zero : (n : ℕ) → n + 0 ≡ n
  add_zero n = omega arith

  add_suc : (n k : ℕ) → n + suc k ≡ suc n + k
  add_suc n k = omega arith

  init_queues-Ready :
      (k n : ℕ) (s : Msgs ops) → Ready n s → n + k ≤ msg_max → Ready (n + k) (init_queues ops k n s)
  unfolding init_queues
  init_queues-Ready zero n s r le = rw (add_zero n) r
  init_queues-Ready (suc k) n s r le = rw (add_suc n k) (
      init_queues-Ready k (suc n) (init_queue ops s n (msgbuf_alloc s.buffers))
        (init_queue-Ready s n r (omega arith)) (omega arith))

  do_msg_init-Ready : (mqueues : ℕ → Mqueue ops) → Ready msg_max (do_msg_init ops mqueues)
  unfolding do_msg_init msgbuf_init
  do_msg_init-Ready mqueues =
      init_queues-Ready msg_max 0 (record { mqueues = mqueues; buffers = msgbuf_init })
        (record {
          owned = λ j below. absurd (omega arith);
          unused = λ j below. absurd (omega arith);
          busy = λ j below. absurd (omega arith);
          free = λ j le. refl;
          empty = λ j. refl;
        })
        (omega arith)

  -- After the start each queue has a buffer of its own that holds no message, and is unused.
  pub do_msg_init-IsValid :
      (mqueues : ℕ → Mqueue ops)
      → IsValid (do_msg_init ops mqueues)
        × ((i : ℕ)
            → i < msg_max
            → (Fifo.queued ((do_msg_init ops mqueues).buffers i) ≡ [])
              × (is_used ((do_msg_init ops mqueues).mqueues i).resource ≡ false))
  do_msg_init-IsValid mqueues =
      let r = do_msg_init-Ready mqueues in
      (
        record { owns = r.owned; valid = r.busy },
        λ i lt. (rw (r.empty i) refl, rw (r.unused i lt) initializer_unused),
      )
