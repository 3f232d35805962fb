-- ===== src/Vfs/Server/Refused.antt =====
-- The clients of the file system server that can not use a file.
use multikernel.Common.{
  ℕ, ◌≡◌, ◌≢◌, ◌∙◌, IsOpen, true, Bool, Option, none, some, List, if-all, Result, ok, err, Status,
  einval,
}
use multikernel.Vfs.Disk.{Data, copy_from}
use multikernel.Vfs.Files.{Vfs, fs_close, close_descriptor}
use multikernel.Vfs.Files.Transfer.{fs_read, read_file, fs_write, write_file, fs_lseek, seek_file}
use multikernel.Vfs.Files.Processes.{OnlyFirst}
use multikernel.Vfs.Process.{vfs_close, vfs_read, vfs_write, vfs_seek}
use multikernel.Vfs.Server.{
  Server, Request, Sent, connection, close_done, number_done, read_done, after_sending, is_bad_size,
  do_vfs_server_close, do_vfs_server_seek, do_vfs_server_write, do_vfs_server_read,
}
use multikernel.Sysv.Resource.{ResourceOps}
use multikernel.Vfs.Server.Clients.{with_descriptor-all}

module _ (ops : ResourceOps) (proc_max : ℕ) (size : ℕ) (big : Bool) where
  -- A request that has an error number for an answer
  abbrev pub IsRefused : Option (Result ℕ × Server ops) → Type 0
  IsRefused none = ⊥
  IsRefused (some (ok n, s)) = ⊥
  IsRefused (some (err e, s)) = Unit {0}

  abbrev pub IsReadRefused : Option (Result ℕ × Server ops × List Sent) → Type 0
  IsReadRefused none = ⊥
  IsReadRefused (some (ok n, s, out)) = ⊥
  IsReadRefused (some (err e, s, out)) = Unit {0}

  abbrev Refused : Option (Result ℕ × Vfs ops) → Type 0
  Refused none = ⊥
  Refused (some (ok n, v)) = ⊥
  Refused (some (err e, v)) = Unit {0}

  abbrev CloseRefused : Option (Status × Vfs ops) → Type 0
  CloseRefused none = ⊥
  CloseRefused (some (ok u, v)) = ⊥
  CloseRefused (some (err e, v)) = Unit {0}

  abbrev ReadRefused : Option (Result ℕ × Data × Vfs ops) → Type 0
  ReadRefused none = ⊥
  ReadRefused (some (ok n, out, v)) = ⊥
  ReadRefused (some (err e, out, v)) = Unit {0}

  number_done-IsRefused :
      (s : Server ops) (o : Option (Result ℕ × Vfs ops))
      → Refused o
      → IsRefused (number_done ops proc_max size big s o)
  number_done-IsRefused s none h = h
  number_done-IsRefused s (some (ok n, v)) h = h
  number_done-IsRefused s (some (err e, v)) h = h

  close_done-IsRefused :
      (s : Server ops) (q : Request) (o : Option (Status × Vfs ops))
      → CloseRefused o
      → IsRefused (close_done ops proc_max size big s q o)
  unfolding close_done
  close_done-IsRefused s q none h = h
  close_done-IsRefused s q (some (ok n, v)) h = h
  close_done-IsRefused s q (some (err e, v)) h = h

  read_done-IsReadRefused :
      (s : Server ops) (m : Sent) (o : Option (Result ℕ × Data × Vfs ops))
      → ReadRefused o
      → IsReadRefused (after_sending ops proc_max size big m (read_done ops proc_max size big s o))
  read_done-IsReadRefused s m none h = h
  read_done-IsReadRefused s m (some (ok n, out, v)) h = h
  read_done-IsReadRefused s m (some (err e, out, v)) h = h

  -- A descriptor without a file
  no_file :
      (v : Vfs ops) (c : Result ℕ) (i j fd : ℕ)
      → OnlyFirst ops v.processes
      → c ≡ ok i
      → i ≢ 0
      → c ≡ ok j
      → (v.processes j).ofiles fd ≡ none
  no_file v c i j fd h ei ne ej = h j fd (λ z. ne (same ei ej ∙ z))
    where
      same : {c : Result ℕ} {i j : ℕ} → c ≡ ok i → c ≡ ok j → i ≡ j
      same a b = cc

  seek-IsRefused :
      (s : Server ops) (q : Request) (i : ℕ)
      → OnlyFirst ops s.vfs.processes
      → connection ops proc_max size big s q ≡ ok i
      → i ≢ 0
      → IsRefused (do_vfs_server_seek ops proc_max size big s q)
  unfolding do_vfs_server_seek vfs_seek fs_lseek seek_file
  seek-IsRefused s q i h found ne = number_done-IsRefused s _ (
      with_descriptor-all ops proc_max size big Refused s.vfs q.fd
        (connection ops proc_max size big s q) (err einval, s.vfs) _ tt
        (λ fd j e. rw (no_file s.vfs _ i j fd h found ne e) tt))

  write-IsRefused :
      (s : Server ops) (q : Request) (i : ℕ)
      → OnlyFirst ops s.vfs.processes
      → connection ops proc_max size big s q ≡ ok i
      → i ≢ 0
      → q.channels.inportal ≡ true
      → IsRefused (do_vfs_server_write ops proc_max size big s q)
  unfolding do_vfs_server_write vfs_write fs_write write_file
  write-IsRefused s q i h found ne got =
      if-all IsRefused (is_bad_size ops proc_max size big q.n) _ _ (λ _. tt)
        (λ _. rw got (
          number_done-IsRefused (record s { buffer = copy_from q.contents s.buffer q.n 0 }) _
            (with_descriptor-all ops proc_max size big Refused s.vfs q.fd
              (connection ops proc_max size big s q) (err einval, s.vfs) _ tt
              (λ fd j e. rw (no_file s.vfs _ i j fd h found ne e) tt))))

  close-IsRefused :
      (s : Server ops) (q : Request) (i : ℕ)
      → OnlyFirst ops s.vfs.processes
      → connection ops proc_max size big s q ≡ ok i
      → i ≢ 0
      → IsRefused (do_vfs_server_close ops proc_max size big s q)
  unfolding do_vfs_server_close vfs_close fs_close close_descriptor
  close-IsRefused s q i h found ne = close_done-IsRefused s q _ (
      with_descriptor-all ops proc_max size big CloseRefused s.vfs q.fd
        (connection ops proc_max size big s q) (err einval, s.vfs) _ tt
        (λ fd j e. rw (no_file s.vfs _ i j fd h found ne e) tt))

  read-IsReadRefused :
      (s : Server ops) (q : Request) (i : ℕ)
      → OnlyFirst ops s.vfs.processes
      → connection ops proc_max size big s q ≡ ok i
      → i ≢ 0
      → q.channels.outbox ≡ true
      → q.channels.outportal ≡ true
      → IsReadRefused (do_vfs_server_read ops proc_max size big s q)
  unfolding do_vfs_server_read vfs_read fs_read read_file
  read-IsReadRefused s q i h found ne box portal =
      if-all IsReadRefused (is_bad_size ops proc_max size big q.n) _ _ (λ _. tt)
        (λ _.
          rw (box, portal)
            (read_done-IsReadRefused s _ _ (
              with_descriptor-all ops proc_max size big ReadRefused s.vfs q.fd
                (connection ops proc_max size big s q) (err einval, s.buffer, s.vfs) _ tt
                (λ fd j e. rw (no_file s.vfs _ i j fd h found ne e) tt))))

  -- Where no process but the first has an open file, and the calls of the kernel on the ports of the
  -- client succeed, every request to read, to write, to seek or to
  -- close of a client whose entry in the table of connections is not the first is answered with an
  -- error.
  pub other_client-IsRefused :
      (s : Server ops) (q : Request) (i : ℕ)
      → OnlyFirst ops s.vfs.processes
      → connection ops proc_max size big s q ≡ ok i
      → i ≢ 0
      → IsOpen q.channels
      → IsReadRefused (do_vfs_server_read ops proc_max size big s q)
        × IsRefused (do_vfs_server_write ops proc_max size big s q)
        × IsRefused (do_vfs_server_seek ops proc_max size big s q)
        × IsRefused (do_vfs_server_close ops proc_max size big s q)
  other_client-IsRefused s q i h found ne (box, outportal, inportal) = (
    read-IsReadRefused s q i h found ne box outportal,
    write-IsRefused s q i h found ne inportal,
    seek-IsRefused s q i h found ne,
    close-IsRefused s q i h found ne,
  )
