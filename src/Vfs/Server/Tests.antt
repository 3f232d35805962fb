-- ===== src/Vfs/Server/Tests.antt =====
-- Tests of the file system server with two clients, on node 5 and on node 6, and the file of
-- Vfs.Files.Tests.
use multikernel.Common.{
  ℕ, ◌<◌, ◌≡◌, ◌≢◌, refl, arith, true, false, Option, none, some, List, [], ◌∷◌, pos, negsuc, ◌==◌,
  if◌then◌else◌, if_false, search_array, Result, ok, err, ebadf,
}
use multikernel.Connection.{lookup}
use multikernel.Vfs.Disk.{Data, ramdisk_write}
use multikernel.Vfs.Inode.{inode_disk_get}
use multikernel.Vfs.Files.Transfer.{fs_write, write_file, write_inode, write_as, fs_read, read_file}
use multikernel.Vfs.Files.Processes.{OnlyFirst}
use multikernel.Vfs.Files.Tests.{one_file}
use multikernel.Vfs.Process.{fprocess_launch, vfs_write, vfs_read}
use multikernel.Vfs.Server.{
  Server, Request, Sent, portal, connection, vfs_write_request, vfs_read_request,
  do_vfs_server_write, do_vfs_server_read, do_vfs_server_seek, do_vfs_server_close,
  do_vfs_server_loop,
}
use multikernel.Vfs.Server.Clients.{FirstAfterRound, do_vfs_server_loop-First}
use multikernel.Vfs.Server.Refused.{IsRefused, IsReadRefused, other_client-IsRefused}
use multikernel.Vfs.Server.Transfer.{do_vfs_server_write-read}
use multikernel.Sysv.Flags.{has_flag}
use multikernel.Sysv.Pool.{flags}

abbrev size : ℕ
size = 65536

abbrev blank : Data
blank k = 0

abbrev two_clients : Server flags
two_clients = record {
  conns = λ i.
      if i == 0
      then record { remote = pos 5; port = pos 1; count = pos 1 }
      else if i == 1
      then record { remote = pos 6; port = pos 1; count = pos 1 }
      else record { remote = negsuc 0; port = negsuc 0; count = pos 0 };
  buffer = blank;
  vfs = one_file;
}

abbrev request : ℕ → ℕ → ℕ → Request
request op source n = record {
  opcode = op;
  source = pos source;
  port = pos 1;
  filename = 97 ∷ [];
  oflag = 2;
  fd = pos 3;
  offset = pos 0;
  whence = pos 2;
  n = n;
  contents = λ k. 7;
  channels = record { outbox = true; outportal = true; inportal = true };
}

abbrev write_request : Request
write_request = request vfs_write_request 5 20

abbrev read_request : Request
read_request = request vfs_read_request 6 20

only_first : OnlyFirst flags one_file.processes
only_first i fd ne = first i fd ne
  where
    first : (i fd : ℕ) → i ≢ 0 → (one_file.processes i).ofiles fd ≡ none
    first i fd ne = if_false (i == 0) _ _ (ground (arith, ne))

do_vfs_server_loop-First_example :
    FirstAfterRound flags 4 size false
      (do_vfs_server_loop flags 4 size false blank two_clients (write_request ∷ read_request ∷ []))
do_vfs_server_loop-First_example =
    do_vfs_server_loop-First flags 4 size false blank two_clients
      (write_request ∷ read_request ∷ []) only_first

second_client : connection flags 4 size false two_clients read_request ≡ ok 1
unfolding lookup search_array
second_client = refl

other_client-IsRefused_example :
    IsReadRefused flags 4 size false
      (do_vfs_server_read flags 4 size false two_clients read_request)
    × IsRefused flags 4 size false (do_vfs_server_write flags 4 size false two_clients read_request)
    × IsRefused flags 4 size false (do_vfs_server_seek flags 4 size false two_clients read_request)
    × IsRefused flags 4 size false (do_vfs_server_close flags 4 size false two_clients read_request)
other_client-IsRefused_example =
    other_client-IsRefused flags 4 size false two_clients read_request 1 only_first second_client
      (λ e. absurd (cc)) (refl, refl, refl)

abbrev after_write : Option (Result ℕ × Server flags) → Server flags
after_write none = two_clients
after_write (some (r, s)) = s

abbrev after_read : Option (Result ℕ × Server flags × List Sent) → Server flags
after_read none = two_clients
after_read (some (r, s, out)) = s

abbrev sent_by : Option (Result ℕ × Server flags × List Sent) → List Sent
sent_by none = []
sent_by (some (r, s, out)) = out

abbrev written : Server flags
written = after_write (do_vfs_server_write flags 4 size false two_clients write_request)

was_written :
    do_vfs_server_write flags 4 size false two_clients write_request ≡ some (ok 20, written)
unfolding do_vfs_server_write vfs_write fprocess_launch fs_write write_file write_inode write_as
    lookup search_array inode_disk_get has_flag ramdisk_write
was_written = refl

abbrev reading : Option (Result ℕ × Server flags × List Sent)
reading = do_vfs_server_read flags 4 size false written read_request

was_read :
    do_vfs_server_read flags 4 size false written read_request
    ≡ some (err ebadf, after_read reading, sent_by reading)
unfolding do_vfs_server_write vfs_write fprocess_launch fs_write write_file write_inode write_as
    lookup search_array inode_disk_get has_flag ramdisk_write do_vfs_server_read vfs_read fs_read
    read_file
was_read = refl

do_vfs_server_write-read_example :
    (bytes : Data) × (sent_by reading ≡ portal (pos 6) bytes 20 ∷ [])
    × ((k : ℕ) → k < 20 → bytes k ≡ 7)
do_vfs_server_write-read_example =
    do_vfs_server_write-read flags 4 size false two_clients written (after_read reading)
      write_request read_request (ok 20) (err ebadf) (sent_by reading) refl refl (omega arith)
      was_written was_read
