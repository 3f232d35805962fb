-- ===== src/Vfs/Server/Transfer.antt =====
-- The buffer that the requests to write and to read share.
use multikernel.Common.{
  ℕ, ◌<◌, ◌≤◌, ◌≡◌, sym, ap, ◌∙◌, inl, inr, arith, not, ◌&&◌, Bool, false, Option, none, some, List,
  [], ◌∷◌, if_inv, some_inj, Result,
}
use multikernel.Vfs.Disk.{Data, copy_from}
use multikernel.Vfs.Files.{Vfs}
use multikernel.Vfs.Server.{
  Server, Request, Sent, portal, number_done, after_sending, is_bad_size, do_vfs_server_write,
  do_vfs_server_read,
}
use multikernel.Sysv.Resource.{ResourceOps}

module _ (ops : ResourceOps) (proc_max : ℕ) (size : ℕ) (big : Bool) where
  number_done-buffer :
      (s s' : Server ops) (r : Result ℕ) (o : Option (Result ℕ × Vfs ops))
      → number_done ops proc_max size big s o ≡ some (r, s')
      → s'.buffer ≡ s.buffer
  number_done-buffer s s' r none e = absurd (cc)
  number_done-buffer s s' r (some (r', v)) e = sym (ap (λ p. p.1.buffer) (some_inj _ _ e))

  written :
      (s s' : Server ops) (q : Request) (r : Result ℕ)
      → is_bad_size ops proc_max size big q.n ≡ false
      → do_vfs_server_write ops proc_max size big s q ≡ some (r, s')
      → s'.buffer ≡ copy_from q.contents s.buffer q.n 0
  unfolding do_vfs_server_write
  written s s' q r good e = elim (if_inv (is_bad_size ops proc_max size big q.n) _ _ e) [
    | inl (bad, _) ↦ absurd (cc)
    | inr (_, e') ↦ elim (if_inv (not q.channels.inportal) _ _ e') [
      | inl (_, bad) ↦ absurd (cc)
      | inr (_, e'') ↦
          number_done-buffer (record s { buffer = copy_from q.contents s.buffer q.n 0 }) s' r _ e''
    ]
  ]

  sent :
      (m : Sent) (s' : Server ops) (r : Result ℕ) (out : List Sent)
      (o : Option (Result ℕ × Server ops))
      → after_sending ops proc_max size big m o ≡ some (r, s', out)
      → out ≡ m ∷ []
  sent m s' r out none e = absurd (cc)
  sent m s' r out (some (r', s)) e = sym (ap (λ p. p.2) (some_inj _ _ e))

  read_sends :
      (s s' : Server ops) (q : Request) (r : Result ℕ) (out : List Sent)
      → is_bad_size ops proc_max size big q.n ≡ false
      → do_vfs_server_read ops proc_max size big s q ≡ some (r, s', out)
      → out ≡ portal q.source s.buffer q.n ∷ []
  unfolding do_vfs_server_read
  read_sends s s' q r out good e = elim (if_inv (is_bad_size ops proc_max size big q.n) _ _ e) [
    | inl (bad, _) ↦ absurd (cc)
    | inr (_, e') ↦ elim (if_inv (not (q.channels.outbox && q.channels.outportal)) _ _ e') [
      | inl (_, bad) ↦ absurd (cc)
      | inr (_, e'') ↦ sent (portal q.source s.buffer q.n) s' r out _ e''
    ]
  ]

  -- When one client writes, and then any client reads no more bytes than were written, with sizes
  -- that the server accepts, the reader is sent the bytes that the first client wrote, whatever
  -- the results of the two requests and whichever file each of them names.
  pub do_vfs_server_write-read :
      (s s1 s2 : Server ops) (qw qr : Request) (r r' : Result ℕ) (out : List Sent)
      → is_bad_size ops proc_max size big qw.n ≡ false
      → is_bad_size ops proc_max size big qr.n ≡ false
      → qr.n ≤ qw.n
      → do_vfs_server_write ops proc_max size big s qw ≡ some (r, s1)
      → do_vfs_server_read ops proc_max size big s1 qr ≡ some (r', s2, out)
      → (bytes : Data) × (out ≡ portal qr.source bytes qr.n ∷ [])
        × ((k : ℕ) → k < qr.n → bytes k ≡ qw.contents k)
  do_vfs_server_write-read s s1 s2 qw qr r r' out gw gr le ew er = (
    s1.buffer,
    read_sends s1 s2 qr r' out gr er,
    λ k lt. ap (λ b. b k) (written s s1 qw r gw ew) ∙ same k (below k lt),
  )
    where
      below : (k : ℕ) → k < qr.n → k < qw.n
      below k lt = omega arith

      same : (k : ℕ) → k < qw.n → copy_from qw.contents s.buffer qw.n 0 k ≡ qw.contents k
      same k lt = ground (arith, lt)
