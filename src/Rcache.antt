-- ===== src/Rcache.antt =====
-- src/libruntime/mm/cache.c: the page cache of a process, over the client of remote memory, whose
-- counts are never negative, so that no test of the cache for a negative count holds. `none` is a
-- failed assertion of the client or its server, or an access outside of the lines. The
-- pointer to a page that `nanvix_rcache_get` returns is the index of the page's line.
mod Tests
pub mod Client
pub mod Fifo
use multikernel.Common.{
  ℤ, pos, ◌==ℤ◌, ℕ, ◌+◌, ◌-◌, Bool, ◌&&◌, not, Option, none, some, true, ◌==◌, if◌then◌else◌,
  update, find_entry, Result, ok, err, Status, einval, enoent,
}
use multikernel.Rmem.{Block, rmem_null}
use multikernel.Rcache.Client.{
  RmemClient, Remote, nanvix_rmem_read, nanvix_rmem_write, nanvix_rmem_alloc, nanvix_rmem_free,
}

-- RCACHE_LENGTH
abbrev pub rcache_length : ℕ
rcache_length = 32

-- The functions that `evict_fn` may be
pub data Policy : Type 0 where
  bypass fifo : Policy

module _ (client : RmemClient) where
  pub record Line : Type 0 where
    pub age : ℕ
    pub pgnum : ℕ
    pub refcount : ℕ
    pub page : Block

  -- `cache`, and the remote memory behind it; the counts of hits and misses are never used.
  pub record Rcache : Type 0 where
    pub initialized : Bool
    pub evict_fn : Policy
    pub ngets : ℕ
    pub lines : ℕ → Line
    pub remote : Remote

  abbrev pub set_line : Rcache → ℕ → Line → Rcache
  set_line s i l = record s { lines = update s.lines i l }

  -- The count is not negative.
  abbrev pub flushed : Rcache → Option (ℕ × Remote) → Option (Status × Rcache)
  flushed s none = none
  flushed s (some (n, r)) = some (ok tt, record s { remote = r })

  pub nanvix_rcache_flush : Rcache → ℕ → Option (Status × Rcache)
  nanvix_rcache_flush s idx =
      flushed s (nanvix_rmem_write client s.remote (s.lines idx).pgnum (s.lines idx).page)

  abbrev pub is_page : ℕ → Line → Bool
  is_page pgnum l = not (l.refcount == 0) && l.pgnum == pgnum

  abbrev pub nanvix_rcache_page_search : Rcache → ℕ → Option ℕ
  nanvix_rcache_page_search s pgnum = find_entry (is_page pgnum) s.lines rcache_length

  abbrev pub nanvix_rcache_empty : Rcache → Option ℕ
  nanvix_rcache_empty s = find_entry (λ (l : Line). l.pgnum == rmem_null) s.lines rcache_length

  -- CACHE_ENTRY_INITIALIZER
  abbrev pub cleared : Line → Line
  cleared l = record l { refcount = 0; pgnum = rmem_null }

  abbrev pub emptied : Option (Status × Rcache) → Option (ℕ × Rcache)
  emptied none = none
  emptied (some (r, s)) = some (0, set_line s 0 (cleared (s.lines 0)))

  pub nanvix_rcache_bypass : Rcache → Option (ℕ × Rcache)
  unfolding nanvix_rcache_flush
  nanvix_rcache_bypass s = emptied (nanvix_rcache_flush s 0)

  -- Without an empty line the first round of the search for the oldest line reads the age of line -1,
  -- which no line is: `none`. What follows in the function is never reached otherwise.
  abbrev pub empty_line : Rcache → Option ℕ → Option (ℕ × Rcache)
  empty_line s none = none
  empty_line s (some i) = some (i, s)

  pub nanvix_rcache_fifo : Rcache → Option (ℕ × Rcache)
  nanvix_rcache_fifo s = empty_line s (nanvix_rcache_empty s)

  -- `cache.evict_fn()`
  pub evict : Rcache → Policy → Option (ℕ × Rcache)
  unfolding nanvix_rcache_bypass nanvix_rcache_fifo
  evict s bypass = nanvix_rcache_bypass s
  evict s fifo = nanvix_rcache_fifo s

  -- `refcount++`, and `ngets++`
  abbrev pub taken : Rcache → ℕ → Option ℕ × Rcache
  taken s i = (
    some i,
    record (set_line s i (record (s.lines i) { refcount = (s.lines i).refcount + 1 })) {
      ngets = s.ngets + 1;
    },
  )

  -- The line is filled whatever the count is, with what the buffer holds.
  pub loaded : Rcache → ℕ → ℕ → Option (ℕ × Block × Remote) → Option (Option ℕ × Rcache)
  loaded s pgnum i none = none
  loaded s pgnum i (some (n, page, r)) = some (
      taken
        (record s {
          lines =
              update s.lines i (record (s.lines i) { age = s.ngets; pgnum = pgnum; page = page });
          remote = r;
        })
        i)

  abbrev pub load : ℕ → Option (ℕ × Rcache) → Option (Option ℕ × Rcache)
  load pgnum none = none
  load pgnum (some (i, s)) =
      loaded s pgnum i (nanvix_rmem_read client s.remote pgnum (s.lines i).page)

  abbrev pub get_line : Rcache → ℕ → Option ℕ → Option (Option ℕ × Rcache)
  get_line s pgnum (some i) = some (taken s i)
  get_line s pgnum none = load pgnum (evict s s.evict_fn)

  -- The line, or a null pointer
  pub nanvix_rcache_get : Rcache → ℕ → Option (Option ℕ × Rcache)
  unfolding evict loaded
  nanvix_rcache_get s pgnum =
      if pgnum == rmem_null
      then some (none, s)
      else get_line s pgnum (nanvix_rcache_page_search s pgnum)

  -- What the write-back returns is not looked at.
  abbrev pub put_flushed : Option (Status × Rcache) → Option (Status × Rcache)
  put_flushed none = none
  put_flushed (some (r, s)) = some (ok tt, s)

  abbrev pub put_line : Rcache → Option ℕ → Option (Status × Rcache)
  put_line s none = some (err enoent, s)
  put_line s (some i) =
      let dropped = set_line s i (record (s.lines i) { refcount = (s.lines i).refcount - 1 }) in
      if (s.lines i).refcount == 1
      then put_flushed (nanvix_rcache_flush dropped i)
      else some (ok tt, dropped)

  pub nanvix_rcache_put : Rcache → ℕ → Option (Status × Rcache)
  unfolding nanvix_rcache_flush
  nanvix_rcache_put s pgnum =
      if pgnum == rmem_null
      then some (err einval, s)
      else put_line s (nanvix_rcache_page_search s pgnum)

  abbrev pub over {ℓ} : {A : Type ℓ} → Rcache → Option (A × Remote) → Option (A × Rcache)
  over s none = none
  over s (some (a, r)) = some (a, record s { remote = r })

  pub nanvix_rcache_alloc : Rcache → Option (ℕ × Rcache)
  nanvix_rcache_alloc s = over s (nanvix_rmem_alloc client s.remote)

  pub nanvix_rcache_free : Rcache → ℕ → Option (Status × Rcache)
  nanvix_rcache_free s pgnum =
      if pgnum == rmem_null
      then some (err einval, s)
      else over s (nanvix_rmem_free client s.remote pgnum)

  -- RCACHE_BYPASS and RCACHE_FIFO
  abbrev pub rcache_bypass : ℕ
  rcache_bypass = 0

  abbrev pub rcache_fifo : ℕ
  rcache_fifo = 1

  pub nanvix_rcache_select_replacement_policy : Rcache → ℤ → Status × Rcache
  nanvix_rcache_select_replacement_policy s num =
      if num ==ℤ pos rcache_bypass
      then (ok tt, record s { evict_fn = bypass })
      else if num ==ℤ pos rcache_fifo
      then (ok tt, record s { evict_fn = fifo })
      else (err einval, record s { evict_fn = bypass })

  pub nanvix_rcache_setup : Rcache → Rcache
  unfolding nanvix_rcache_select_replacement_policy
  nanvix_rcache_setup s =
      if s.initialized
      then s
      else record (nanvix_rcache_select_replacement_policy
          (record s { lines = λ i. cleared (s.lines i); ngets = 0 }) (pos rcache_fifo)).1 {
            initialized = true;
          }
