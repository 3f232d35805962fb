-- ===== src/Vfs/Server/Clients.antt =====
-- Which clients can use a file: the processes behind the connections of the file system server.
use multikernel.Common.{
  ℕ, ◌≡◌, refl, ap, ◌∙◌, inl, inr, Bool, not, ◌&&◌, enosys, Option, none, some, List, [], ◌∷◌, ℤ,
  pos, negsuc, leb, ◌==◌, if-all, Bool-cases, Result, ok, err, Status, einval,
}
use multikernel.Connection.{connections_max, connect}
use multikernel.Vfs.Disk.{Data, copy_from}
use multikernel.Vfs.Files.{Vfs, open_max, fs_open}
use multikernel.Vfs.Files.Processes.{
  OnlyFirst, OnlyFirstOf, SameOf, SameRead, fs_lseek-Same, fs_write-Same, fs_read-Same,
  fs_close-OnlyFirst, fs_open-OnlyFirst,
}
use multikernel.Vfs.Process.{
  launched, fprocess_launch, in_process, with_descriptor, vfs_open, vfs_close, vfs_read, vfs_write,
  vfs_seek,
}
use multikernel.Vfs.Server.{
  Server, Request, Sent, as_connection, open_done, close_done, number_done, read_done,
  after_sending, is_bad_size, do_vfs_server_open, do_vfs_server_close, do_vfs_server_seek,
  do_vfs_server_write, do_vfs_server_read, answer, answer_read, is_unsupported, handle,
  vfs_open_request, vfs_close_request, vfs_read_request, vfs_write_request, vfs_seek_request,
  vfs_exit, after, sent_before, do_vfs_server_loop,
}
use multikernel.Sysv.Resource.{ResourceOps}

module _ (ops : ResourceOps) (proc_max : ℕ) (size : ℕ) (big : Bool) where
  -- What holds of a refusal, and of what runs in a process of a connection
  pub in_process-all {ℓ κ} :
      {A : Type ℓ} (P : Option A → Type κ) (v : Vfs ops) (c : Result ℕ) (refusal : A)
      (next : Vfs ops → Option A)
      → P (some refusal)
      → ((i : ℕ) → c ≡ ok i → P (next (launched ops proc_max v i)))
      → P (in_process ops proc_max refusal next (fprocess_launch ops proc_max v c))
  unfolding fprocess_launch
  in_process-all P v (err e) refusal next h k = h
  in_process-all P v (ok i) refusal next h k =
      elim (Bool-cases (leb (connections_max proc_max) i)) [
        | inl t ↦ rw t h
        | inr f ↦ rw f (k i refl)
      ]

  pub with_descriptor-all {ℓ κ} :
      {A : Type ℓ} (P : Option A → Type κ) (v : Vfs ops) (fd : ℤ) (c : Result ℕ) (refusal : A)
      (next : ℕ → Vfs ops → Option A)
      → P (some refusal)
      → ((fd' i : ℕ) → c ≡ ok i → P (next fd' (launched ops proc_max v i)))
      → P (with_descriptor ops proc_max size big v fd c refusal next)
  with_descriptor-all P v (negsuc n) c refusal next h k = h
  with_descriptor-all P v (pos fd) c refusal next h k =
      if-all P (leb open_max fd) _ _ (λ _. h) (λ _. in_process-all P v c refusal (next fd) h (k fd))

  -- The outcomes of a request, with the invariant after it
  abbrev pub FirstAfter : Option (Result ℕ × Server ops) → Type 0
  FirstAfter none = Unit {0}
  FirstAfter (some (r, s)) = OnlyFirst ops s.vfs.processes

  abbrev FirstAfterRead : Option (Result ℕ × Server ops × List Sent) → Type 0
  FirstAfterRead none = Unit {0}
  FirstAfterRead (some (r, s, out)) = OnlyFirst ops s.vfs.processes

  abbrev pub FirstAfterRound : Option (Server ops × List Sent) → Type 0
  FirstAfterRound none = Unit {0}
  FirstAfterRound (some (s, out)) = OnlyFirst ops s.vfs.processes

  open_done-First :
      (s : Server ops) (q : Request) (o : Option (Result ℕ × Vfs ops))
      → OnlyFirstOf ops o
      → FirstAfter (open_done ops proc_max size big s q o)
  unfolding open_done
  open_done-First s q none h = h
  open_done-First s q (some (ok fd, v)) h = h
  open_done-First s q (some (err e, v)) h = h

  close_done-First :
      (s : Server ops) (q : Request) (o : Option (Status × Vfs ops))
      → OnlyFirstOf ops o
      → FirstAfter (close_done ops proc_max size big s q o)
  unfolding close_done
  close_done-First s q none h = h
  close_done-First s q (some (ok fd, v)) h = h
  close_done-First s q (some (err e, v)) h = h

  same-First :
      (v : Vfs ops) (s : Server ops) (o : Option (Result ℕ × Vfs ops))
      → OnlyFirst ops v.processes
      → SameOf ops v.processes o
      → FirstAfter (number_done ops proc_max size big s o)
  same-First v s none h e = tt
  same-First v s (some (r, v')) h e = λ i fd ne. ap (λ t. (t i).ofiles fd) e ∙ h i fd ne

  SameRead-First :
      (v : Vfs ops) (s : Server ops) (m : Sent) (o : Option (Result ℕ × Data × Vfs ops))
      → OnlyFirst ops v.processes
      → SameRead ops v.processes o
      → FirstAfterRead (after_sending ops proc_max size big m (read_done ops proc_max size big s o))
  SameRead-First v s m none h e = tt
  SameRead-First v s m (some (r, out, v')) h e = λ i fd ne. ap (λ t. (t i).ofiles fd) e ∙ h i fd ne

  do_vfs_server_open-First :
      (before : Data) (s : Server ops) (q : Request)
      → OnlyFirst ops s.vfs.processes
      → FirstAfter (do_vfs_server_open ops proc_max size big before s q)
  unfolding do_vfs_server_open vfs_open
  do_vfs_server_open-First before s q h =
      let c = connect proc_max s.conns q.source q.port in
      open_done-First (record s { conns = c.1 }) q _
        (in_process-all (OnlyFirstOf ops) s.vfs (as_connection ops proc_max size big c.0)
          (err einval, s.vfs) (λ v. fs_open ops size big before v q.filename q.oflag) h
          (λ i e.
            fs_open-OnlyFirst ops size big before (launched ops proc_max s.vfs i) q.filename q.oflag
              (is_zero c.0 e) h))
    where
      is_zero : {i : ℕ} (r : Status) → as_connection ops proc_max size big r ≡ ok i → i ≡ 0
      is_zero (ok u) e = cc
      is_zero (err x) e = absurd (cc)

  do_vfs_server_close-First :
      (s : Server ops) (q : Request)
      → OnlyFirst ops s.vfs.processes
      → FirstAfter (do_vfs_server_close ops proc_max size big s q)
  unfolding do_vfs_server_close vfs_close
  do_vfs_server_close-First s q h = close_done-First s q _ (
      with_descriptor-all (OnlyFirstOf ops) s.vfs q.fd _ (err einval, s.vfs) _ h
        (λ fd i _. fs_close-OnlyFirst ops size big (launched ops proc_max s.vfs i) fd h))

  do_vfs_server_seek-First :
      (s : Server ops) (q : Request)
      → OnlyFirst ops s.vfs.processes
      → FirstAfter (do_vfs_server_seek ops proc_max size big s q)
  unfolding do_vfs_server_seek vfs_seek
  do_vfs_server_seek-First s q h = same-First s.vfs s _ h (
      with_descriptor-all (SameOf ops s.vfs.processes) s.vfs q.fd _ (err einval, s.vfs) _ refl
        (λ fd i _. fs_lseek-Same ops (launched ops proc_max s.vfs i) fd q.offset q.whence))

  do_vfs_server_write-First :
      (s : Server ops) (q : Request)
      → OnlyFirst ops s.vfs.processes
      → FirstAfter (do_vfs_server_write ops proc_max size big s q)
  unfolding do_vfs_server_write vfs_write
  do_vfs_server_write-First s q h =
      if-all FirstAfter (is_bad_size ops proc_max size big q.n) _ _ (λ _. h)
        (λ _.
          if-all FirstAfter (not q.channels.inportal) _ _ (λ _. tt)
            (λ _.
              same-First s.vfs (record s { buffer = copy_from q.contents s.buffer q.n 0 }) _ h
                (with_descriptor-all (SameOf ops s.vfs.processes) s.vfs q.fd _ (err einval, s.vfs) _
                  refl
                  (λ fd i _.
                    fs_write-Same ops size (launched ops proc_max s.vfs i) fd
                      (copy_from q.contents s.buffer q.n 0) q.n))))

  do_vfs_server_read-First :
      (s : Server ops) (q : Request)
      → OnlyFirst ops s.vfs.processes
      → FirstAfterRead (do_vfs_server_read ops proc_max size big s q)
  unfolding do_vfs_server_read vfs_read
  do_vfs_server_read-First s q h =
      if-all FirstAfterRead (is_bad_size ops proc_max size big q.n) _ _ (λ _. h)
        (λ _.
          if-all FirstAfterRead (not (q.channels.outbox && q.channels.outportal)) _ _ (λ _. tt)
            (λ _. SameRead-First s.vfs s _ _ h (
              with_descriptor-all (SameRead ops s.vfs.processes) s.vfs q.fd _
                (err einval, s.buffer, s.vfs) _ refl
                (λ fd i _. fs_read-Same ops size (launched ops proc_max s.vfs i) fd s.buffer q.n))))

  answer-First :
      (q : Request) (o : Option (Result ℕ × Server ops))
      → FirstAfter o
      → FirstAfterRound (answer ops proc_max size big q o)
  answer-First q none h = h
  answer-First q (some (r, s)) h = if-all FirstAfterRound q.channels.outbox _ _ (λ _. h) (λ _. tt)

  answer_read-First :
      (q : Request) (o : Option (Result ℕ × Server ops × List Sent))
      → FirstAfterRead o
      → FirstAfterRound (answer_read ops proc_max size big q o)
  answer_read-First q none h = h
  answer_read-First q (some (r, s, out)) h =
      if-all FirstAfterRound q.channels.outbox _ _ (λ _. h) (λ _. tt)

  handle-First :
      (before : Data) (s : Server ops) (q : Request)
      → OnlyFirst ops s.vfs.processes
      → FirstAfterRound (handle ops proc_max size big before s q)
  unfolding handle
  handle-First before s q h =
      if-all P (is_unsupported ops proc_max size big q.opcode) _ _
        (λ _. answer-First q (some (err enosys, s)) h)
        (λ _.
          if-all P (q.opcode == vfs_open_request) _ _
            (λ _. answer-First q _ (do_vfs_server_open-First before s q h))
            (λ _.
              if-all P (q.opcode == vfs_close_request) _ _
                (λ _. answer-First q _ (do_vfs_server_close-First s q h))
                (λ _.
                  if-all P (q.opcode == vfs_read_request) _ _
                    (λ _. answer_read-First q _ (do_vfs_server_read-First s q h))
                    (λ _.
                      if-all P (q.opcode == vfs_write_request) _ _
                        (λ _. answer-First q _ (do_vfs_server_write-First s q h))
                        (λ _.
                          if-all P (q.opcode == vfs_seek_request) _ _
                            (λ _. answer-First q _ (do_vfs_server_seek-First s q h)) (λ _. h))))))
    where
      P : Option (Server ops × List Sent) → Type 0
      P = FirstAfterRound

  -- The server keeps, over any messages, that no process but the first has an open file.
  pub do_vfs_server_loop-First :
      (before : Data) (s : Server ops) (qs : List Request)
      → OnlyFirst ops s.vfs.processes
      → FirstAfterRound (do_vfs_server_loop ops proc_max size big before s qs)
  unfolding do_vfs_server_loop
  do_vfs_server_loop-First before s [] h = h
  do_vfs_server_loop-First before s (q ∷ qs) h =
      if-all FirstAfterRound (q.opcode == vfs_exit) _ _ (λ _. h)
        (λ _.
          next (λ s' h'. do_vfs_server_loop-First before s' qs h')
            (handle ops proc_max size big before s q) (handle-First before s q h))
    where
      rest :
          (out : List Sent) (o : Option (Server ops × List Sent))
          → FirstAfterRound o
          → FirstAfterRound (after ops proc_max size big o (sent_before ops proc_max size big out))
      rest out none h' = h'
      rest out (some (s', out')) h' = h'

      next :
          ((s' : Server ops)
            → OnlyFirst ops s'.vfs.processes
            → FirstAfterRound (do_vfs_server_loop ops proc_max size big before s' qs))
          → (o : Option (Server ops × List Sent)) → FirstAfterRound o
          → FirstAfterRound (
              after ops proc_max size big o (λ r.
                after ops proc_max size big
                  (do_vfs_server_loop ops proc_max size big before r.0 qs)
                  (sent_before ops proc_max size big r.1)))
      next go none h' = h'
      next go (some (s', out)) h' = rest out _ (go s' h')
