-- ===== src/Connection/Refine.antt =====
-- The table of connections as a count of connections for each client, and what connecting and
-- disconnecting do to it.
use multikernel.Common.{
  ℕ, ◌≢◌, Status, ◌<◌, ◌≡◌, refl, sym, ap, fun_ext, ◌∙◌, ◌⊎◌, inl, inr, true, false, Bool, Option,
  none, some, ℤ, pos, negsuc, is_neg, ==ℤ_iff, ◌==ℤ◌, ◌+ℤ◌, ◌-ℤ◌, ◌&&◌, Bool-cases, update,
  find_entry, arith, ok, err, enoent, eagain, if◌then◌else◌, First, search-cases, search_of_First,
  search_fails, find-update_same, find-update_new, find-update_gone,
}
use multikernel.Connection.{
  Connection, Table, connections_max, is_client, is_empty, acquire, dropped, fresh, connect,
  disconnect,
}
use multikernel.Connection.Valid.{
  IsValid, Client, NoClient, connect-cases, disconnect-cases, client-live,
}

abbrev pub refs_at : Table → Option ℕ → ℤ
refs_at t none = pos 0
refs_at t (some i) = (t i).count

-- How many connections the client at `port` of `remote` holds.
unfoldable pub refs : ℕ → Table → ℤ → ℤ → ℤ
refs m t remote port = refs_at t (find_entry (is_client remote port) t (connections_max m))

abbrev pub same : ℤ → ℤ → ℤ → ℤ → Bool
same r p r' p' = r ==ℤ r' && p ==ℤ p'

same→eq : (r p r' p' : ℤ) → same r p r' p' ≡ true → (r ≡ r') × (p ≡ p')
same→eq r p r' p' h = ground (arith, ==ℤ_iff r r', ==ℤ_iff p p')

-- An entry of one client is no entry of another.
other_client :
    (r p r' p' : ℤ) (c : Connection)
    → is_client r p c ≡ true
    → same r p r' p' ≡ false
    → is_client r' p' c ≡ false
other_client r p r' p' c h ne = ground (
  arith,
  ==ℤ_iff c.remote r,
  ==ℤ_iff c.port p,
  ==ℤ_iff c.remote r',
  ==ℤ_iff c.port p',
  ==ℤ_iff r r',
  ==ℤ_iff p p',
)

empty_client :
    (r p : ℤ) (c : Connection) → is_neg r ≡ false → is_empty c ≡ true → is_client r p c ≡ false
empty_client r p c hr h = ground (arith, ==ℤ_iff c.remote r)

-- A search that misses entry `i` reads the same count after a write to it.
refs_at-update :
    (q : Connection → Bool) (t : Table) (n i : ℕ) (c : Connection)
    → q (t i) ≡ false
    → refs_at (update t i c) (find_entry q t n) ≡ refs_at t (find_entry q t n)
refs_at-update q t n i c miss = elim (search-cases (λ j. q (t j)) n) [
  | inl (e, h) ↦ rw e
  | inr (k, e, f) ↦ rw e (ground (arith, f.passes))
]

-- A write to an entry of another client, that leaves it to another client, keeps the count.
refs_other :
    (m : ℕ) (t : Table) (r p : ℤ) (i : ℕ) (c : Connection)
    → is_client r p (t i) ≡ false
    → is_client r p c ≡ false
    → refs m (update t i c) r p ≡ refs m t r p
unfolding refs
refs_other m t r p i c h h' =
    rw (find-update_same (is_client r p) t (connections_max m) i c (h' ∙ sym h))
      (refs_at-update (is_client r p) t (connections_max m) i c h)

-- A write to the client's own entry, that keeps the client, sets its count.
refs_self :
    (m : ℕ) (t : Table) (r p : ℤ) (i : ℕ) (c : Connection)
    → Client m t r p i
    → is_client r p c ≡ true
    → refs m (update t i c) r p ≡ c.count
unfolding refs
refs_self m t r p i c f h =
    rw
      (
        find-update_same (is_client r p) t (connections_max m) i c (h ∙ sym f.passes),
        search_of_First _ (connections_max m) i f,
      )
      (ground arith)

refs_found : (m : ℕ) (t : Table) (r p : ℤ) (i : ℕ) → Client m t r p i → refs m t r p ≡ (t i).count
unfolding refs
refs_found m t r p i f = rw (search_of_First _ (connections_max m) i f)

refs_absent : (m : ℕ) (t : Table) (r p : ℤ) → NoClient m t r p → refs m t r p ≡ pos 0
unfolding refs
refs_absent m t r p h = rw (search_fails _ (connections_max m) h)

-- The count of `r' p'` after a request of `r p` that put `v` in the place of the count of `r p`.
abbrev pub recount : ℕ → Table → ℤ → ℤ → ℤ → ℤ → ℤ → ℤ
recount m t r p v r' p' = if same r p r' p' then v else refs m t r' p'

-- A write to the entry of a client changes the count of that client alone.
write_refs :
    (m : ℕ) (t : Table) (r p : ℤ) (i : ℕ) (c : Connection) (r' p' : ℤ)
    → Client m t r p i
    → is_client r p c ≡ true
    → refs m (update t i c) r' p' ≡ recount m t r p c.count r' p'
write_refs m t r p i c r' p' f h = elim (Bool-cases (same r p r' p')) [
  | inl e ↦ rw (e, ← (same→eq r p r' p' e).0, ← (same→eq r p r' p' e).1) (refs_self m t r p i c f h)
  | inr ne ↦ rw ne (
      refs_other m t r' p' i c (other_client r p r' p' (t i) f.passes ne)
        (other_client r p r' p' c h ne))
]

-- An entry for a client that had none.
new_refs :
    (m : ℕ) (t : Table) (r p : ℤ) (i : ℕ) (c : Connection)
    → i < connections_max m
    → NoClient m t r p
    → is_client r p c ≡ true
    → refs m (update t i c) r p ≡ c.count
unfolding refs
new_refs m t r p i c lt absent h =
    rw
      (find-update_new (is_client r p) t (connections_max m) i c lt
        (search_fails _ (connections_max m) absent) h)
      (ground arith)

-- An emptied entry, where no other was the client's.
gone_refs :
    (m : ℕ) (t : Table) (r p : ℤ) (i : ℕ) (c : Connection)
    → is_client r p c ≡ false
    → ((j : ℕ) → j < connections_max m → is_client r p (t j) ≡ true → j ≡ i)
    → refs m (update t i c) r p ≡ pos 0
unfolding refs
gone_refs m t r p i c h only =
    rw (find-update_gone (is_client r p) t (connections_max m) i c h only)

abbrev counted_once : ℤ → ℤ → Connection
counted_once r p = record { remote = r; port = p; count = pos 1 }

is_client_self : (r p : ℤ) → is_client r p (counted_once r p) ≡ true
is_client_self r p = ground (arith, ==ℤ_iff r r, ==ℤ_iff p p)

placed :
    (t : Table) (i : ℕ) (r p : ℤ)
    → acquire (update t i (fresh r p)) i ≡ update t i (counted_once r p)
placed t i r p = fun_ext λ j. ground arith

-- A new entry changes the count of its client alone.
place_refs :
    (m : ℕ) (t : Table) (r p : ℤ) (i : ℕ) (r' p' : ℤ)
    → is_neg r' ≡ false
    → NoClient m t r p
    → First (λ j. is_empty (t j)) (connections_max m) i
    → refs m (acquire (update t i (fresh r p)) i) r' p' ≡ recount m t r p (pos 1) r' p'
place_refs m t r p i r' p' hr absent f = rw (placed t i r p) (elim (Bool-cases (same r p r' p')) [
  | inl e ↦
      rw (e, ← (same→eq r p r' p' e).0, ← (same→eq r p r' p' e).1)
        (new_refs m t r p i (counted_once r p) f.within absent (is_client_self r p))
  | inr ne ↦ rw ne (
      refs_other m t r' p' i (counted_once r p) (empty_client r' p' (t i) hr f.passes)
        (other_client r p r' p' (counted_once r p) (is_client_self r p) ne))
])

abbrev emptied : Connection → Connection
emptied c = record c { remote = negsuc 0; count = c.count -ℤ pos 1 }

-- What a connection of `r p` returns and leaves: one connection more, or no room for one.
abbrev pub Connects : ℕ → Table → ℤ → ℤ → Status × Table → Type 0
Connects m t r p (s, t') =
    ((s ≡ ok tt)
      × ((r' p' : ℤ)
          → is_neg r' ≡ false
          → refs m t' r' p' ≡ recount m t r p (refs m t r p +ℤ pos 1) r' p'))
    ⊎ ((s ≡ err eagain)
        × (t' ≡ t)
        × (refs m t r p ≡ pos 0)
        × ((i : ℕ) → i < connections_max m → is_empty (t i) ≡ false))

-- What a disconnection of `r p` returns and leaves: one connection less, or none to end.
abbrev pub Disconnects : ℕ → Table → ℤ → ℤ → Status × Table → Type 0
Disconnects m t r p (s, t') =
    ((s ≡ ok tt)
      × (pos 0 ≢ refs m t r p)
      × ((r' p' : ℤ)
          → is_neg r' ≡ false
          → refs m t' r' p' ≡ recount m t r p (refs m t r p -ℤ pos 1) r' p'))
    ⊎ ((s ≡ err enoent) × (t' ≡ t) × (refs m t r p ≡ pos 0))

module _ (m : ℕ) (t : Table) (r p : ℤ) (hr : is_neg r ≡ false) (hp : is_neg p ≡ false) where
  -- A connection by a client with a proper address either succeeds, and then counts one more
  -- connection of that client and changes the count of no other; or fails with EAGAIN, and then
  -- leaves the table as it was, the client had no connection and every slot was taken.
  pub connect_refines : Connects m t r p (connect m t r p)
  connect_refines = elim (connect-cases m t r p hr hp) [
    | inl (i, f, e) ↦ rw e (
        inl
          (refl, λ r' p' _. rw (refs_found m t r p i f) (write_refs m t r p i _ r' p' f f.passes)))
    | inr (inl (i, absent, f, e)) ↦ rw e (
        inl (
          refl,
          λ r' p' h. rw (refs_absent m t r p absent) (place_refs m t r p i r' p' h absent f),
        ))
    | inr (inr (absent, full, e)) ↦ rw e (inr (refl, refl, refs_absent m t r p absent, full))
  ]

  registered : IsValid (connections_max m) t → (i : ℕ) → Client m t r p i → pos 0 ≡ refs m t r p → ⊥
  registered v i f e =
      ground
        (arith, refs_found m t r p i f, v.counted i f.within, client-live m t r p i hr f.passes)

  only-Client :
      IsValid (connections_max m) t
      → (i : ℕ) → Client m t r p i
      → (j : ℕ) → j < connections_max m
      → is_client r p (t j) ≡ true
      → j ≡ i
  only-Client v i f j hj h = ground (
    arith,
    client-live m t r p i hr f.passes,
    client-live m t r p j hr h,
    v.distinct j i hj f.within,
  )

  refs-dropped :
      IsValid (connections_max m) t
      → (i : ℕ) → Client m t r p i
      → (r' p' : ℤ) → is_neg r' ≡ false
      → refs m (update t i (dropped (t i))) r' p' ≡ recount m t r p ((t i).count -ℤ pos 1) r' p'
  refs-dropped v i f r' p' h = elim (Bool-cases ((t i).count ==ℤ pos 1)) [
    | inr more ↦ rw more (write_refs m t r p i _ r' p' f f.passes)
    | inl last ↦ rw last (elim (Bool-cases (same r p r' p')) [
      | inl e ↦
          rw (e, ← (same→eq r p r' p' e).0, ← (same→eq r p r' p' e).1)
            (gone_refs m t r p i (emptied (t i)) (empty_client r p (emptied (t i)) hr refl)
                (only-Client v i f)
              ∙ ap (λ k. k -ℤ pos 1) (sym ((==ℤ_iff (t i).count (pos 1)).0 last)))
      | inr ne ↦ rw ne (
          refs_other m t r' p' i (emptied (t i)) (other_client r p r' p' (t i) f.passes ne)
            (empty_client r' p' (emptied (t i)) h refl))
    ])
  ]

  -- In a valid table a disconnection by a client with a proper address either succeeds, and then
  -- the client had a connection, is counted one less and no other client's count has changed; or
  -- fails with ENOENT, and then leaves the table as it was and the client had no connection.
  pub disconnect_refines : IsValid (connections_max m) t → Disconnects m t r p (disconnect m t r p)
  disconnect_refines v = elim (disconnect-cases m t r p hr hp) [
    | inl (i, f, e) ↦ rw e (
        inl (
          refl,
          registered v i f,
          λ r' p' h. rw (refs_found m t r p i f) (refs-dropped v i f r' p' h),
        ))
    | inr (absent, e) ↦ rw e (inr (refl, refl, refs_absent m t r p absent))
  ]
