-- ===== src/Sysv/Msg/Transfer.antt =====
-- Sending and receiving: each queue is a bounded queue of places of its own, and what outlives a
-- queue that is closed.
use multikernel.Common.{
  ℕ, ◌+◌, ◌≤◌, ◌<◌, ◌≡◌, ◌≢◌, refl, ap, ◌∙◌, ◌⊎◌, inl, inr, Bool, true, false, ◌&&◌, [], ◌∷◌, ◌++◌,
  Option, none, some, ℤ, pos, negsuc, pos_part, ◌==◌, ==_refl, Bool-cases, arith, find_entry,
  Result, ok, err, Status, Errno, einval, enotsup, eagain, enomsg,
}
use multikernel.Sysv.Resource.{ResourceOps}
use multikernel.Sysv.Flags.{has_flag, ipc_nowait}
use multikernel.Sysv.Msgbuf.{Msgbuf, msg_max, msg_size_max, msg_length_max, msgbuf_size}
use multikernel.Sysv.Msgbuf.Fifo
use multikernel.Sysv.Msg.{
  Slot, msgnull, place, Msgs, msgid_is_valid, sent, received, msg_put, msg_take, do_msg_send,
  do_msg_receive, do_msg_get, do_msg_close, has_key, msg_found, msg_create,
}
use multikernel.Sysv.Msg.Init.{IsValid}

module _ (ops : ResourceOps) where
  open ops use {Resource, is_used, alloc}

  -- The requests that reach the buffer of the queue
  abbrev pub admits : Msgs ops → ℤ → ℕ → ℕ → Bool
  admits s msgid msgsz msgflg =
      has_flag msgflg ipc_nowait
      && msgid_is_valid msgid
      && is_used (s.mqueues (pos_part msgid)).resource
      && msgsz == msg_size_max

  abbrev pub KeepsOthers : Msgs ops → ℕ → Msgs ops → Type 0
  KeepsOthers s i s' = (s'.mqueues ≡ s.mqueues) × ((j : ℕ) → j ≢ i → s'.buffers j ≡ s.buffers j)

  -- What a send returns and leaves: refused; queue full; or the last place of the queue, which
  -- overlaps no message that waits.
  abbrev pub Sends : Msgs ops → ℤ → ℕ → ℕ → Option (Status × Slot × Msgs ops) → Type 0
  Sends s msgid msgsz msgflg none = ⊥
  Sends s msgid msgsz msgflg (some (r, obj, s')) =
      let i = pos_part msgid in
      let queue = Fifo.queued (s.buffers i) in
      let queue' = Fifo.queued (s'.buffers i) in
      ((e : Errno) × (admits s msgid msgsz msgflg ≡ false)
        × (r ≡ err e)
        × (obj ≡ msgnull)
        × (s' ≡ s))
      ⊎ (KeepsOthers s i s'
          × (((admits s msgid msgsz msgflg ≡ true)
                × ((s.buffers i).len ≡ msg_length_max)
                × (r ≡ err eagain)
                × (obj ≡ msgnull)
                × (queue' ≡ queue))
              ⊎ ((x : ℕ) × (admits s msgid msgsz msgflg ≡ true)
                  × ((s.buffers i).len ≢ msg_length_max)
                  × (r ≡ ok tt)
                  × (obj ≡ place i x)
                  × (x + msg_size_max ≤ msgbuf_size)
                  × Fifo.Avoids x queue
                  × (queue' ≡ queue ++ x ∷ []))))

  sent-Sends :
      (s : Msgs ops) (msgid : ℤ) (msgsz msgflg : ℕ) (out : Result ℕ × Msgbuf)
      → admits s msgid msgsz msgflg ≡ true
      → Fifo.Puts (s.buffers (pos_part msgid)) out
      → Sends s msgid msgsz msgflg (sent ops s (pos_part msgid) out)
  sent-Sends s msgid msgsz msgflg (r, b) good (inl (full, e, same)) =
      rw (e, same, ==_refl (pos_part msgid))
        (inr ((refl, λ j ne. ground arith), inl (good, full, refl, refl, refl)))
  sent-Sends s msgid msgsz msgflg (r, b) good (inr (x, room, e, within, apart, last)) =
      rw (e, ==_refl (pos_part msgid))
        (inr ((refl, λ j ne. ground arith), inr (x, good, room, refl, refl, within, apart, last)))

  pub pos_part-valid : (msgid : ℤ) → msgid_is_valid msgid ≡ true → pos_part msgid < msg_max
  pos_part-valid (pos i) e = ground arith
  pos_part-valid (negsuc n) e = ground arith

  -- In a valid state a send never follows a null buffer. It is refused, with `msgnull` and nothing
  -- changed, unless it asks not to wait, names a queue in use and has the size of a message; it then
  -- fails with EAGAIN exactly if 16 messages wait, and else hands out a place at the end of the
  -- queue that overlaps no message that waits. No other queue changes.
  pub do_msg_send-Sends :
      (s : Msgs ops) (msgid : ℤ) (msgsz msgflg : ℕ)
      → IsValid ops s
      → Sends s msgid msgsz msgflg (do_msg_send ops s msgid msgsz msgflg)
  unfolding do_msg_send msg_put
  do_msg_send-Sends s msgid msgsz msgflg v = elim (Bool-cases (has_flag msgflg ipc_nowait)) [
    | inr bad ↦ rw bad (inl (enotsup, ground arith, refl, refl, refl))
    | inl now ↦ elim (Bool-cases (msgid_is_valid msgid)) [
      | inr bad ↦ rw (now, bad) (inl (einval, ground arith, refl, refl, refl))
      | inl valid ↦ elim (Bool-cases (is_used (s.mqueues (pos_part msgid)).resource)) [
        | inr bad ↦ rw (now, valid, bad) (inl (einval, ground arith, refl, refl, refl))
        | inl live ↦ elim (Bool-cases (msgsz == msg_size_max)) [
          | inr bad ↦ rw (now, valid, live, bad) (inl (einval, ground arith, refl, refl, refl))
          | inl fits ↦
              rw (now, valid, live, fits, v.owns _ (pos_part-valid msgid valid))
                (sent-Sends s msgid msgsz msgflg _ (ground arith) (
                  Fifo.msgbuf_put_lem (s.buffers (pos_part msgid))
                    (v.valid _ (pos_part-valid msgid valid))))
        ]
      ]
    ]
  ]

  -- What a receive returns and leaves: refused; no message; or the first place of the queue.
  abbrev pub Receives : Msgs ops → ℤ → ℕ → ℕ → Option (Status × Option Slot × Msgs ops) → Type 0
  Receives s msgid msgsz msgflg none = ⊥
  Receives s msgid msgsz msgflg (some (r, obj, s')) =
      let i = pos_part msgid in
      let queue = Fifo.queued (s.buffers i) in
      let queue' = Fifo.queued (s'.buffers i) in
      ((e : Errno) × (admits s msgid msgsz msgflg ≡ false) × (r ≡ err e) × (obj ≡ none) × (s' ≡ s))
      ⊎ (KeepsOthers s i s'
          × (((admits s msgid msgsz msgflg ≡ true)
                × (queue ≡ [])
                × (r ≡ err enomsg)
                × (obj ≡ none)
                × (queue' ≡ queue))
              ⊎ ((x : ℕ) × (admits s msgid msgsz msgflg ≡ true)
                  × (r ≡ ok tt)
                  × (obj ≡ some (place i x))
                  × (queue ≡ x ∷ queue'))))

  received-Receives :
      (s : Msgs ops) (msgid : ℤ) (msgsz msgflg : ℕ) (out : Result ℕ × Msgbuf)
      → admits s msgid msgsz msgflg ≡ true
      → Fifo.Gets (s.buffers (pos_part msgid)) out
      → Receives s msgid msgsz msgflg (received ops s (pos_part msgid) out)
  received-Receives s msgid msgsz msgflg (r, b) good (inl (none_left, e, same)) =
      rw (e, same, ==_refl (pos_part msgid))
        (inr ((refl, λ j ne. ground arith), inl (good, none_left, refl, refl, refl)))
  received-Receives s msgid msgsz msgflg (r, b) good (inr (x, e, first)) =
      rw (e, ==_refl (pos_part msgid))
        (inr ((refl, λ j ne. ground arith), inr (x, good, refl, refl, first)))

  -- In a valid state a receive never follows a null buffer. It is refused, with nothing changed,
  -- unless it asks not to wait, names a queue in use and has the size of a message; it then fails
  -- with ENOMSG exactly if no message waits, and else hands out the place of the message that has
  -- waited longest, whatever type of message is asked for. No other queue changes.
  pub do_msg_receive-Receives :
      (s : Msgs ops) (msgid : ℤ) (msgsz : ℕ) (msgtyp : ℤ) (msgflg : ℕ)
      → IsValid ops s
      → Receives s msgid msgsz msgflg (do_msg_receive ops s msgid msgsz msgtyp msgflg)
  unfolding do_msg_receive msg_take
  do_msg_receive-Receives s msgid msgsz msgtyp msgflg v =
      elim (Bool-cases (has_flag msgflg ipc_nowait)) [
        | inr bad ↦ rw bad (inl (enotsup, ground arith, refl, refl, refl))
        | inl now ↦ elim (Bool-cases (msgid_is_valid msgid)) [
          | inr bad ↦ rw (now, bad) (inl (einval, ground arith, refl, refl, refl))
          | inl valid ↦ elim (Bool-cases (is_used (s.mqueues (pos_part msgid)).resource)) [
            | inr bad ↦ rw (now, valid, bad) (inl (einval, ground arith, refl, refl, refl))
            | inl live ↦ elim (Bool-cases (msgsz == msg_size_max)) [
              | inr bad ↦ rw (now, valid, live, bad) (inl (einval, ground arith, refl, refl, refl))
              | inl fits ↦
                  rw (now, valid, live, fits, v.owns _ (pos_part-valid msgid valid))
                    (received-Receives s msgid msgsz msgflg _ (ground arith) (
                      Fifo.msgbuf_get_lem (s.buffers (pos_part msgid))
                        (v.valid _ (pos_part-valid msgid valid))))
            ]
          ]
        ]
      ]

  create_buffers :
      (s : Msgs ops) (key : ℤ) (o : Option (ℕ × Resource))
      → (msg_create ops s key o).1.buffers ≡ s.buffers
  unfolding msg_create
  create_buffers s key none = refl
  create_buffers s key (some (i, r)) = refl

  found_buffers :
      (s : Msgs ops) (key : ℤ) (msgflg : ℕ) (o : Option ℕ)
      → (msg_found ops s key msgflg o).1.buffers ≡ s.buffers
  unfolding msg_found
  found_buffers s key msgflg (some i) = ground arith
  found_buffers s key msgflg none =
      ground (arith, create_buffers s key (alloc (λ i. (s.mqueues i).resource) msg_max))

  pub get_buffers :
      (s : Msgs ops) (key : ℤ) (msgflg : ℕ) → (do_msg_get ops s key msgflg).1.buffers ≡ s.buffers
  unfolding do_msg_get
  get_buffers s key msgflg =
      ground (arith, found_buffers s key msgflg (find_entry (has_key ops key) s.mqueues msg_max))

  pub close_buffers : (s : Msgs ops) (msgid : ℤ) → (do_msg_close ops s msgid).1.buffers ≡ s.buffers
  unfolding do_msg_close
  close_buffers s (negsuc n) = refl
  close_buffers s (pos i) = ground arith

  -- Closing a queue and getting one again, by whatever key, takes no message from any buffer: what
  -- waited in a queue that was closed is received by the next that is given its place.
  pub do_msg_get-keeps_messages :
      (s : Msgs ops) (msgid key : ℤ) (msgflg i : ℕ)
      → Fifo.queued ((do_msg_get ops (do_msg_close ops s msgid).1 key msgflg).1.buffers i)
        ≡ Fifo.queued (s.buffers i)
  do_msg_get-keeps_messages s msgid key msgflg i =
      ap (λ f. Fifo.queued (f i))
        (get_buffers (do_msg_close ops s msgid).1 key msgflg ∙ close_buffers s msgid)
