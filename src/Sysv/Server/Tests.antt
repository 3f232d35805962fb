-- ===== src/Sysv/Server/Tests.antt =====
-- Tests of the System V server, with a semaphore of value 0 and a client on node 5.
use multikernel.Common.{ℕ, refl, false, none, pos, negsuc, [], search_array}
use multikernel.Connection.{connections_setup}
use multikernel.Sysv.Flags.{has_flag}
use multikernel.Sysv.Pool.{flags}
use multikernel.Sysv.Resource.{RegionOps}
use multikernel.Sysv.Sem.{do_sem_init, do_sem_get}
use multikernel.Sysv.Server.{Server, Request, do_sysv_sem_operate}
use multikernel.Sysv.Server.Wait.{NoneWaits, ZeroSleepers, do_sysv_sem_operate-NoneWaits}

-- Regions without shared memory
abbrev no_regions : RegionOps
no_regions = record {
  Resource = ℕ;
  initializer = 0;
  is_used = λ r. false;
  is_busy = λ r. false;
  is_writable = λ r. false;
  is_mapped = λ r. false;
  alloc = λ rs n. none;
  release = λ r. 0;
  set_busy = λ r. r;
  set_notbusy = λ r. r;
  set_rdonly = λ r. r;
  set_rdwr = λ r. r;
  Remote = ℕ;
  nanvix_rmem_alloc = λ r. (0, r);
  nanvix_rmem_free = λ r p. (false, r);
  initializer_unused = refl;
}

abbrev one_sem : Server flags no_regions
one_sem = record {
  conns = connections_setup;
  sems = (do_sem_get flags (do_sem_init flags) (pos 5) 1).1;
  msgs = record {
    mqueues = λ i. record { resource = false; key = pos 0; refcount = pos 0; buf = none };
    buffers = λ i. record { len = 0; size = 0; head = 0; tail = 0; bytes = λ k. 0 };
  };
  shms = record {
    regions = λ i. record {
      resource = 0;
      name = [];
      owner = pos 0;
      refcount = pos 0;
      mode = 0;
      size = 0;
      page = 0;
    };
    remote = 0;
  };
}

-- An operation that lowers the semaphore below zero
abbrev down : Request
down = record {
  opcode = 10;
  source = pos 5;
  port = pos 1;
  key = pos 5;
  flags = 0;
  id = pos 0;
  msgsz = 0;
  msgtyp = pos 0;
  sembuf = record { sem_op = negsuc 0; sem_flg = 0 };
  name = [];
  mode = 0;
  size = pos 0;
  page = 0;
  contents = λ k. 0;
}

one_sem-ZeroSleepers : ZeroSleepers flags one_sem.sems
unfolding do_sem_init do_sem_get has_flag search_array
one_sem-ZeroSleepers k = refl

do_sysv_sem_operate-NoneWaits_example :
    NoneWaits flags no_regions 4 (pos 5) (do_sysv_sem_operate flags no_regions 4 one_sem down)
do_sysv_sem_operate-NoneWaits_example =
    do_sysv_sem_operate-NoneWaits flags no_regions 4 one_sem down one_sem-ZeroSleepers
