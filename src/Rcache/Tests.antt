-- ===== src/Rcache/Tests.antt =====
-- A test of the page cache, over two servers of remote memory that have started.
use multikernel.Common.{refl, true, ◌==◌, arith, if◌then◌else◌}
use multikernel.Rmem.{do_rmem_startup}
use multikernel.Rcache.Client.{RmemClient}
use multikernel.Rcache.{Rcache, fifo, nanvix_rcache_get}
use multikernel.Rcache.Fifo.{GetsPage, nanvix_rcache_get-GetsPage}

abbrev client : RmemClient
client = record {
  rmem_servers_num = 2;
  node = 3;
  channels = record { outbox = true; outportal = true; inportal = true };
}

-- Page 7 is in use, in line 0.
abbrev one_page : Rcache client
one_page = record {
  initialized = true;
  evict_fn = fifo;
  ngets = 1;
  lines = λ i. record {
    age = 0;
    pgnum = if i == 0 then 7 else 0;
    refcount = if i == 0 then 1 else 0;
    page = λ k. k;
  };
  remote = record { servers = λ i. do_rmem_startup i; initialized = λ i. true; nallocs = 0 };
}

nanvix_rcache_get-GetsPage_example :
    GetsPage client one_page 9 (nanvix_rcache_get client one_page 9)
nanvix_rcache_get-GetsPage_example =
    nanvix_rcache_get-GetsPage client one_page 9 refl (λ e. absurd (omega arith))
