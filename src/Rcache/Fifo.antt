-- ===== src/Rcache/Fifo.antt =====
-- Getting a page through the cache, under the policy that is chosen at the start.
use mathlib.Core.Path.{subst}
use multikernel.Common.{
  ℕ, update, ◌+◌, ltb, leb, ◌||◌, ◌<◌, ◌≡◌, ◌≢◌, refl, sym, ap, ◌∙◌, ◌⊎◌, inl, inr, true, false,
  ◌&&◌, not, Option, none, some, some_inj, ◌==◌, ==_refl, arith, if_false, First, NoneBelow,
  search-cases, IsOpen,
}
use multikernel.Bitmap.Laws.{bit}
use multikernel.Rmem.{
  Block, zero_block, rmem_null, rmem_num_blocks, rmem_block_num, rmem_block_server, rmem_block_size,
  rmem_read,
}
use multikernel.Rmem.Access.{rmem_round-read}
use multikernel.Rcache.Client.{RmemClient, Remote, nanvix_rmem_read, request_for}
use multikernel.Rcache.{
  Rcache, fifo, rcache_length, is_page, empty_line, nanvix_rcache_fifo, evict, taken, loaded, load,
  get_line, nanvix_rcache_get,
}

-- One more reference to a page in use leaves it in use.
used_again : (c p n : ℕ) → not (c == 0) && p == n ≡ true → not (c + 1 == 0) && p == n ≡ true
used_again c p n h = ground (arith, h)

first_use : (c p : ℕ) → not (c + 1 == 0) && p == p ≡ true
first_use c p = ground arith

module _ (client : RmemClient) where
  -- The line of a page in use, and the first empty line
  abbrev pub IsLineOf : Rcache client → ℕ → ℕ → Type 0
  IsLineOf s pgnum i = First (λ j. is_page client pgnum (s.lines j)) rcache_length i

  abbrev pub IsAbsent : Rcache client → ℕ → Type 0
  IsAbsent s pgnum = NoneBelow (λ j. is_page client pgnum (s.lines j)) rcache_length

  abbrev pub IsFirstEmpty : Rcache client → ℕ → Type 0
  IsFirstEmpty s i = First (λ j. (s.lines j).pgnum == rmem_null) rcache_length i

  -- A block that is allocated on a server to which the client is connected holds a content.
  abbrev pub Holds : Remote → ℕ → Block → Type 0
  Holds r pgnum b =
      (rmem_block_server pgnum < client.rmem_servers_num)
      × (r.initialized (rmem_block_server pgnum) ≡ true)
      × (rmem_block_num pgnum ≢ rmem_null)
      × (rmem_block_num pgnum < rmem_num_blocks)
      × (bit (r.servers (rmem_block_server pgnum)).bitmap (rmem_block_num pgnum) ≡ 1)
      × ((r.servers (rmem_block_server pgnum)).blocks (rmem_block_num pgnum) ≡ b)

  -- The client reads a block that is allocated, where the kernel's calls succeed.
  nanvix_rmem_read-Holds :
      (r : Remote) (pgnum : ℕ) (buf b : Block)
      → pgnum ≢ rmem_null
      → IsOpen client.channels
      → Holds r pgnum b
      → (r' : Remote) × (nanvix_rmem_read client r pgnum buf ≡ some (rmem_block_size, b, r'))
  unfolding nanvix_rmem_read
  nanvix_rmem_read-Holds r pgnum buf b nn opens (lt, up, ne, below, set, same) =
      let (s', e) =
        rmem_round-read (r.servers (rmem_block_server pgnum)) (request_for client rmem_read pgnum)
          zero_block (rmem_block_num pgnum) refl (refl, ne, below) set opens in
      (
        record r { servers = update r.servers (rmem_block_server pgnum) s' },
        if_false _ _ _ (good (rmem_block_num pgnum) pgnum nn below)
            ∙ if_false _ _ _ (inside (rmem_block_server pgnum) client.rmem_servers_num lt)
            ∙ rw up (rw (e, same) refl),
      )
    where
      good : (n p : ℕ) → p ≢ 0 → n < rmem_num_blocks → (p == 0 || leb rmem_num_blocks n) ≡ false
      good n p nn below = ground (arith, nn, below)

      inside : (i n : ℕ) → i < n → not (ltb i n) ≡ false
      inside i n lt = ground (arith, lt)

  -- What the client reads of a page that is not in use, into the first empty line
  abbrev pub read_into : Rcache client → ℕ → ℕ → Option (ℕ × Block × Remote)
  read_into s pgnum i = nanvix_rmem_read client s.remote pgnum (s.lines i).page

  -- What a call that gets a page gives: it stops, because no line is empty or the read stops; or it
  -- returns a line in use for the page, and the other lines are as before. The line keeps its content
  -- if the page was in use, and else was empty and has what the read has left in it.
  abbrev pub GetsPage : Rcache client → ℕ → Option (Option ℕ × Rcache client) → Type 0
  GetsPage s pgnum none =
      IsAbsent s pgnum
      × (NoneBelow (λ j. (s.lines j).pgnum == rmem_null) rcache_length
          ⊎ ((i : ℕ) × IsFirstEmpty s i × (read_into s pgnum i ≡ none)))
  GetsPage s pgnum (some (none, s')) = ⊥
  GetsPage s pgnum (some (some i, s')) =
      (is_page client pgnum (s'.lines i) ≡ true)
      × ((j : ℕ) → j ≢ i → s'.lines j ≡ s.lines j)
      × ((IsLineOf s pgnum i × ((s'.lines i).page ≡ (s.lines i).page) × (s'.remote ≡ s.remote))
          ⊎ (IsAbsent s pgnum
              × IsFirstEmpty s i
              × ((n : ℕ) × (read_into s pgnum i ≡ some (n, (s'.lines i).page, s'.remote)))
              × ((b : Block)
                  → IsOpen client.channels
                  → Holds s.remote pgnum b
                  → (s'.lines i).page ≡ b)))

  differ : (i j : ℕ) → j ≢ i → (i == j) ≡ false
  differ i j ne = ground (arith, ne)

  found-GetsPage :
      (s : Rcache client) (pgnum i : ℕ)
      → IsLineOf s pgnum i
      → GetsPage s pgnum (some (taken client s i))
  found-GetsPage s pgnum i f = (
    rw (==_refl i) (used_again (s.lines i).refcount (s.lines i).pgnum pgnum f.passes),
    (λ j ne. rw (differ i j ne) refl),
    inl (f, rw (==_refl i) refl, refl),
  )

  loaded-GetsPage :
      (s : Rcache client) (pgnum i : ℕ) (out : Option (ℕ × Block × Remote))
      → pgnum ≢ rmem_null
      → IsAbsent s pgnum
      → IsFirstEmpty s i
      → read_into s pgnum i ≡ out
      → GetsPage s pgnum (loaded client s pgnum i out)
  unfolding loaded
  loaded-GetsPage s pgnum i none nn absent f r = (absent, inr (i, f, r))
  loaded-GetsPage s pgnum i (some (n, page, remote)) nn absent f r = (
    rw (==_refl i) (first_use (s.lines i).refcount pgnum),
    (λ j ne. rw (differ i j ne) refl),
    inr (
      absent,
      f,
      (n, rw (==_refl i) r),
      λ b opens held.
          let (r', e) = nanvix_rmem_read-Holds s.remote pgnum (s.lines i).page b nn opens held in
          rw (==_refl i) (ap (λ p. p.1) (some_inj _ _ (sym r ∙ e))),
    ),
  )

  missed :
      (s : Rcache client) (pgnum : ℕ)
      → pgnum ≢ rmem_null
      → IsAbsent s pgnum
      → GetsPage s pgnum (load client pgnum (evict client s fifo))
  unfolding evict nanvix_rcache_fifo
  missed s pgnum nn absent =
      elim (search-cases (λ j. (s.lines j).pgnum == rmem_null) rcache_length) [
        | inl (full, none_empty) ↦
            subst (λ o. GetsPage s pgnum (load client pgnum (empty_line client s o))) (sym full)
              (absent, inl none_empty)
        | inr (i, found, f) ↦
            subst (λ o. GetsPage s pgnum (load client pgnum (empty_line client s o))) (sym found)
              (loaded-GetsPage s pgnum i (read_into s pgnum i) nn absent f refl)
      ]

  -- With the policy that is chosen at the start, getting a page whose number is not null never
  -- returns a null pointer, also where the read of the page fails. It returns the line of the page, as
  -- it was, if the page is in use, and else the first empty line, with what the read has left in it:
  -- the content of the page, where its block is allocated on a server to which the client is
  -- connected and the kernel's calls succeed. The other lines are as before. It stops exactly where
  -- the page is not in use and no line is empty, or the read stops.
  pub nanvix_rcache_get-GetsPage :
      (s : Rcache client) (pgnum : ℕ)
      → s.evict_fn ≡ fifo
      → pgnum ≢ rmem_null
      → GetsPage s pgnum (nanvix_rcache_get client s pgnum)
  unfolding nanvix_rcache_get evict nanvix_rcache_fifo
  nanvix_rcache_get-GetsPage s pgnum policy nn =
      subst (GetsPage s pgnum) (sym (if_false _ _ _ (not_null pgnum nn)))
        (elim (search-cases (λ j. is_page client pgnum (s.lines j)) rcache_length) [
          | inr (i, e, f) ↦
              subst (λ o. GetsPage s pgnum (get_line client s pgnum o)) (sym e)
                (found-GetsPage s pgnum i f)
          | inl (e, absent) ↦
              subst (λ o. GetsPage s pgnum (get_line client s pgnum o)) (sym e)
                (subst (λ c. GetsPage s pgnum (load client pgnum (evict client s c))) (sym policy)
                  (missed s pgnum nn absent))
        ])
    where
      not_null : (n : ℕ) → n ≢ 0 → (n == 0) ≡ false
      not_null n h = ground (arith, h)
