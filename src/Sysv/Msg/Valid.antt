-- ===== src/Sysv/Msg/Valid.antt =====
-- Every operation on message queues leaves each queue with a valid buffer of its own.
use multikernel.Common.{
  ℕ, ◌≡◌, refl, ◌∙◌, inl, inr, true, Option, none, some, ℤ, pos, negsuc, pos_part, ◌==◌, Bool-cases,
  update, arith, find_entry, Result, ok, err, Status,
}
use multikernel.Sysv.Resource.{ResourceOps}
use multikernel.Sysv.Msgbuf.{Msgbuf, msg_max, msgbuf_put, msgbuf_get}
use multikernel.Sysv.Msgbuf.Fifo
use multikernel.Sysv.Msg.{
  Msgs, msgid_is_valid, sent, received, msg_put, msg_take, do_msg_send, do_msg_receive, do_msg_get,
  do_msg_close, has_key, msg_found, msg_create, dereferenced,
}
use multikernel.Sysv.Msg.Init.{IsValid}
use multikernel.Sysv.Msg.Transfer.{pos_part-valid, get_buffers, close_buffers}

module _ (ops : ResourceOps) where
  open ops use {Resource, is_used, alloc}

  write_buffer-IsValid :
      (s : Msgs ops) (i : ℕ) (b : Msgbuf)
      → IsValid ops s
      → Fifo.IsValid b
      → IsValid ops (record s { buffers = update s.buffers i b })
  write_buffer-IsValid s i b v vb = record {
    owns = v.owns;
    valid = λ j lt. elim (Bool-cases (i == j)) [
      | inl hit ↦ rw hit vb
      | inr miss ↦ rw miss (v.valid j lt)
    ];
  }

  -- No null buffer is followed, and the state that is left is valid.
  abbrev pub Keeps {ℓ} : {A : Type ℓ} → Option (Status × A × Msgs ops) → Type 0
  Keeps none = ⊥
  Keeps (some (_, _, s)) = IsValid ops s

  sent-Keeps :
      (s : Msgs ops) (i : ℕ) (out : Result ℕ × Msgbuf)
      → IsValid ops s
      → Fifo.IsValid out.1
      → Keeps (sent ops s i out)
  sent-Keeps s i (ok x, b) v vb = write_buffer-IsValid s i b v vb
  sent-Keeps s i (err e, b) v vb = write_buffer-IsValid s i b v vb

  received-Keeps :
      (s : Msgs ops) (i : ℕ) (out : Result ℕ × Msgbuf)
      → IsValid ops s
      → Fifo.IsValid out.1
      → Keeps (received ops s i out)
  received-Keeps s i (ok x, b) v vb = write_buffer-IsValid s i b v vb
  received-Keeps s i (err e, b) v vb = write_buffer-IsValid s i b v vb

  module _ (s : Msgs ops) (msgid : ℤ) (msgsz msgflg : ℕ) (v : IsValid ops s) where
    put-Keeps : msgid_is_valid msgid ≡ true → Keeps (msg_put ops s (s.mqueues (pos_part msgid)).buf)
    unfolding msg_put
    put-Keeps valid = rw (v.owns _ (pos_part-valid ops msgid valid)) (
        sent-Keeps s (pos_part msgid) (msgbuf_put (s.buffers (pos_part msgid))) v
          (Fifo.msgbuf_put-IsValid _ (v.valid _ (pos_part-valid ops msgid valid))))

    take-Keeps :
        msgid_is_valid msgid ≡ true → Keeps (msg_take ops s (s.mqueues (pos_part msgid)).buf)
    unfolding msg_take
    take-Keeps valid = rw (v.owns _ (pos_part-valid ops msgid valid)) (
        received-Keeps s (pos_part msgid) (msgbuf_get (s.buffers (pos_part msgid))) v
          (Fifo.msgbuf_get-IsValid _ (v.valid _ (pos_part-valid ops msgid valid))))

    send-Keeps : Keeps (do_msg_send ops s msgid msgsz msgflg)
    unfolding do_msg_send
    send-Keeps = ground (arith, put-Keeps, v)

    receive-Keeps : (msgtyp : ℤ) → Keeps (do_msg_receive ops s msgid msgsz msgtyp msgflg)
    unfolding do_msg_receive
    receive-Keeps msgtyp = ground (arith, take-Keeps, v)

  close_buf :
      (s : Msgs ops) (msgid : ℤ) (j : ℕ)
      → ((do_msg_close ops s msgid).1.mqueues j).buf ≡ (s.mqueues j).buf
  unfolding do_msg_close dereferenced
  close_buf s (negsuc n) j = refl
  close_buf s (pos i) j = ground arith

  create_buf :
      (s : Msgs ops) (key : ℤ) (o : Option (ℕ × Resource)) (j : ℕ)
      → ((msg_create ops s key o).1.mqueues j).buf ≡ (s.mqueues j).buf
  unfolding msg_create
  create_buf s key none j = refl
  create_buf s key (some (i, r)) j = ground arith

  found_buf :
      (s : Msgs ops) (key : ℤ) (msgflg : ℕ) (o : Option ℕ) (j : ℕ)
      → ((msg_found ops s key msgflg o).1.mqueues j).buf ≡ (s.mqueues j).buf
  unfolding msg_found
  found_buf s key msgflg (some i) j = ground arith
  found_buf s key msgflg none j =
      ground (arith, create_buf s key (alloc (λ i. (s.mqueues i).resource) msg_max) j)

  get_buf :
      (s : Msgs ops) (key : ℤ) (msgflg j : ℕ)
      → ((do_msg_get ops s key msgflg).1.mqueues j).buf ≡ (s.mqueues j).buf
  unfolding do_msg_get
  get_buf s key msgflg j =
      ground (arith, found_buf s key msgflg (find_entry (has_key ops key) s.mqueues msg_max) j)

  same-IsValid :
      (s s' : Msgs ops)
      → IsValid ops s
      → s'.buffers ≡ s.buffers
      → ((j : ℕ) → (s'.mqueues j).buf ≡ (s.mqueues j).buf)
      → IsValid ops s'
  same-IsValid s s' v eb eq = record {
    owns = λ j lt. eq j ∙ v.owns j lt;
    valid = λ j lt. rw eb (v.valid j lt);
  }

  -- From a valid state, whatever their arguments, the four operations on message queues follow no
  -- null buffer and leave each queue with a valid buffer that no other queue has.
  pub do_msg-IsValid :
      (s : Msgs ops) (id : ℤ) (msgsz : ℕ) (msgtyp : ℤ) (msgflg : ℕ)
      → IsValid ops s
      → IsValid ops (do_msg_get ops s id msgflg).1
        × IsValid ops (do_msg_close ops s id).1
        × Keeps (do_msg_send ops s id msgsz msgflg)
        × Keeps (do_msg_receive ops s id msgsz msgtyp msgflg)
  do_msg-IsValid s id msgsz msgtyp msgflg v = (
    same-IsValid s _ v (get_buffers ops s id msgflg) (get_buf s id msgflg),
    same-IsValid s _ v (close_buffers ops s id) (close_buf s id),
    send-Keeps s id msgsz msgflg v,
    receive-Keeps s id msgsz msgflg v msgtyp,
  )
