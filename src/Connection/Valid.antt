-- ===== src/Connection/Valid.antt =====
-- The invariant of the table of connections: no client stands in two entries, and every entry in
-- use counts at least one connection.
use multikernel.Common.{
  ℕ, ◌≤◌, ◌<◌, ◌≡◌, refl, ◌≢◌, inl, inr, true, false, ℤ, pos, is_neg, pos_part, ==ℤ_iff, ◌==◌,
  ==_refl, ◌==ℤ◌, Bool-cases, update, arith, ok, err, enoent, search-cases, First, NoneBelow,
  eagain, einval, ◌⊎◌,
}
use multikernel.Connection.{
  Connection, Table, connections_max, is_client, is_empty, acquire, dropped, fresh, lookup, connect,
  disconnect, connections_setup,
}

-- Two entries in use of one client are one entry.
abbrev pub IsDistinct : ℕ → Table → Type 0
IsDistinct n t =
    (i j : ℕ)
    → i < n
    → j < n
    → is_empty (t i) ≡ false
    → (t i).remote ≡ (t j).remote
    → (t i).port ≡ (t j).port
    → i ≡ j

abbrev pub IsCounted : ℕ → Table → Type 0
IsCounted n t = (i : ℕ) → i < n → is_empty (t i) ≡ false → 1 ≤ pos_part (t i).count

pub record IsValid (n : ℕ) (t : Table) : Type 0 where
  pub distinct : IsDistinct n t
  pub counted : IsCounted n t

-- A write that keeps the client of entry `i`, or empties it, keeps the entries distinct.
IsDistinct-keep :
    (n : ℕ) (t : Table) (i : ℕ) (c : Connection)
    → IsDistinct n t
    → is_empty (t i) ≡ false
    → c.remote ≡ (t i).remote
    → c.port ≡ (t i).port
    → IsDistinct n (update t i c)
IsDistinct-keep n t i c d live er ep a b ha hb = elim (Bool-cases (i == a)) [
  | inl ea ↦ elim (Bool-cases (i == b)) [ inl eb ↦ ground arith | inr nb ↦ ground (arith, d i b) ]
  | inr na ↦ elim (Bool-cases (i == b)) [
    | inl eb ↦ ground (arith, d a i)
    | inr nb ↦ ground (arith, d a b)
  ]
]

IsDistinct-drop :
    (n : ℕ) (t : Table) (i : ℕ) (c : Connection)
    → IsDistinct n t
    → is_empty c ≡ true
    → IsDistinct n (update t i c)
IsDistinct-drop n t i c d gone a b ha hb = elim (Bool-cases (i == a)) [
  | inl ea ↦ ground arith
  | inr na ↦ elim (Bool-cases (i == b)) [ inl eb ↦ ground arith | inr nb ↦ ground (arith, d a b) ]
]

is_client_of : (r p : ℤ) (c : Connection) → r ≡ c.remote → p ≡ c.port → is_client r p c ≡ true
is_client_of r p c er ep = ground (arith, ==ℤ_iff c.remote r, ==ℤ_iff c.port p)

IsDistinct-new :
    (n : ℕ) (t : Table) (i : ℕ) (c : Connection)
    → IsDistinct n t
    → ((j : ℕ) → j < n → is_client c.remote c.port (t j) ≡ false)
    → IsDistinct n (update t i c)
IsDistinct-new n t i c d absent a b ha hb = elim (Bool-cases (i == a)) [
  | inl ea ↦ elim (Bool-cases (i == b)) [
    | inl eb ↦ ground arith
    | inr nb ↦ ground (arith, d a b, absent b, is_client_of c.remote c.port (t b))
  ]
  | inr na ↦ elim (Bool-cases (i == b)) [
    | inl eb ↦ ground (arith, d a b, absent a, is_client_of c.remote c.port (t a))
    | inr nb ↦ ground (arith, d a b)
  ]
]

IsCounted-write :
    (n : ℕ) (t : Table) (i : ℕ) (c : Connection)
    → IsCounted n t
    → (is_empty c ≡ false → 1 ≤ pos_part c.count)
    → IsCounted n (update t i c)
IsCounted-write n t i c h hc a ha = elim (Bool-cases (i == a)) [
  | inl ea ↦ ground arith
  | inr na ↦ ground (arith, h a)
]

module _ (m : ℕ) where
  abbrev pub Client : Table → ℤ → ℤ → ℕ → Type 0
  Client t r p i = First (λ j. is_client r p (t j)) (connections_max m) i

  abbrev pub NoClient : Table → ℤ → ℤ → Type 0
  NoClient t r p = NoneBelow (λ j. is_client r p (t j)) (connections_max m)

  -- The three ways of a connection by a client with a proper address.
  pub connect-cases :
      (t : Table) (r p : ℤ)
      → is_neg r ≡ false
      → is_neg p ≡ false
      → ((i : ℕ) × Client t r p i × (connect m t r p ≡ (ok tt, acquire t i)))
        ⊎ ((i : ℕ) × NoClient t r p
            × First (λ j. is_empty (t j)) (connections_max m) i
            × (connect m t r p ≡ (ok tt, acquire (update t i (fresh r p)) i)))
        ⊎ (NoClient t r p
            × NoneBelow (λ j. is_empty (t j)) (connections_max m)
            × (connect m t r p ≡ (err eagain, t)))
  unfolding connect lookup
  connect-cases t r p hr hp = elim (search-cases (λ j. is_client r p (t j)) (connections_max m)) [
    | inr (i, e, f) ↦ inl (i, f, rw (hr, hp, e))
    | inl (e, h) ↦ elim (search-cases (λ j. is_empty (t j)) (connections_max m)) [
      | inr (i, e', f) ↦ inr (inl (i, h, f, rw (hr, hp, e, e')))
      | inl (e', h') ↦ inr (inr (h, h', rw (hr, hp, e, e')))
    ]
  ]

  pub disconnect-cases :
      (t : Table) (r p : ℤ)
      → is_neg r ≡ false
      → is_neg p ≡ false
      → ((i : ℕ) × Client t r p i × (disconnect m t r p ≡ (ok tt, update t i (dropped (t i)))))
        ⊎ (NoClient t r p × (disconnect m t r p ≡ (err enoent, t)))
  unfolding disconnect lookup
  disconnect-cases t r p hr hp =
      elim (search-cases (λ j. is_client r p (t j)) (connections_max m)) [
        | inr (i, e, f) ↦ inl (i, f, rw (hr, hp, e))
        | inl (e, h) ↦ inr (h, rw (hr, hp, e))
      ]

  -- A request with a negative address is refused, and changes nothing.
  pub connect_bad :
      (t : Table) (r p : ℤ)
      → (is_neg r ≡ true) ⊎ (is_neg p ≡ true)
      → (connect m t r p ≡ (err einval, t)) × (disconnect m t r p ≡ (err einval, t))
  unfolding connect disconnect
  connect_bad t r p h = ground arith

  -- Counting a connection of entry `i` completes the invariant there.
  acquire-IsValid :
      (t : Table) (i : ℕ)
      → IsDistinct (connections_max m) t
      → ((j : ℕ)
          → j < connections_max m
          → j ≢ i
          → is_empty (t j) ≡ false
          → 1 ≤ pos_part (t j).count)
      → is_empty (t i) ≡ false
      → is_neg (t i).count ≡ false
      → IsValid (connections_max m) (acquire t i)
  acquire-IsValid t i d counted live nonneg = record {
    distinct = IsDistinct-keep (connections_max m) t i _ d live refl refl;
    counted = λ j hj. elim (Bool-cases (i == j)) [
      | inl e ↦ ground arith
      | inr ne ↦ ground (arith, counted j)
    ];
  }

  pub client-live :
      (t : Table) (r p : ℤ) (i : ℕ)
      → is_neg r ≡ false
      → is_client r p (t i) ≡ true
      → (is_empty (t i) ≡ false) × ((t i).remote ≡ r) × ((t i).port ≡ p)
  client-live t r p i hr h = ground (arith, ==ℤ_iff (t i).remote r, ==ℤ_iff (t i).port p)

  join-IsValid :
      (t : Table) (i : ℕ)
      → IsValid (connections_max m) t
      → i < connections_max m
      → is_empty (t i) ≡ false
      → IsValid (connections_max m) (acquire t i)
  join-IsValid t i v hi live =
      acquire-IsValid t i v.distinct (λ j hj _. v.counted j hj) live
        (ground (arith, v.counted i hi))

  place-IsValid :
      (t : Table) (r p : ℤ) (i : ℕ)
      → is_neg r ≡ false
      → IsValid (connections_max m) t
      → NoClient t r p
      → IsValid (connections_max m) (acquire (update t i (fresh r p)) i)
  place-IsValid t r p i hr v absent =
      acquire-IsValid (update t i (fresh r p)) i
        (IsDistinct-new (connections_max m) t i (fresh r p) v.distinct absent)
        (λ j hj ne. ground (arith, v.counted j)) (rw (==_refl i) hr) (rw (==_refl i))

  dropped-IsValid :
      (t : Table) (i : ℕ)
      → IsValid (connections_max m) t
      → i < connections_max m
      → is_empty (t i) ≡ false
      → IsValid (connections_max m) (update t i (dropped (t i)))
  dropped-IsValid t i v hi live = elim (Bool-cases ((t i).count ==ℤ pos 1)) [
    | inl last ↦ rw last (record {
      distinct = IsDistinct-drop (connections_max m) t i _ v.distinct refl;
      counted = IsCounted-write (connections_max m) t i _ v.counted (λ h. cc);
    })
    | inr more ↦ rw more (record {
      distinct = IsDistinct-keep (connections_max m) t i _ v.distinct live refl refl;
      counted =
          IsCounted-write (connections_max m) t i _ v.counted (λ h. ground (arith, v.counted i hi));
    })
  ]

  -- `connect` keeps the invariant.
  pub connect-IsValid :
      (t : Table) (r p : ℤ)
      → IsValid (connections_max m) t
      → IsValid (connections_max m) (connect m t r p).1
  connect-IsValid t r p v = elim (Bool-cases (is_neg r)) [
    | inl bad ↦ rw (connect_bad t r p (inl bad)).0 v
    | inr hr ↦ elim (Bool-cases (is_neg p)) [
      | inl bad ↦ rw (connect_bad t r p (inr bad)).0 v
      | inr hp ↦ elim (connect-cases t r p hr hp) [
        | inl (i, f, e) ↦ rw e (join-IsValid t i v f.within (client-live t r p i hr f.passes).0)
        | inr (inl (i, absent, f, e)) ↦ rw e (place-IsValid t r p i hr v absent)
        | inr (inr (_, _, e)) ↦ rw e v
      ]
    ]
  ]

  -- `disconnect` keeps the invariant.
  pub disconnect-IsValid :
      (t : Table) (r p : ℤ)
      → IsValid (connections_max m) t
      → IsValid (connections_max m) (disconnect m t r p).1
  disconnect-IsValid t r p v = elim (Bool-cases (is_neg r)) [
    | inl bad ↦ rw (connect_bad t r p (inl bad)).1 v
    | inr hr ↦ elim (Bool-cases (is_neg p)) [
      | inl bad ↦ rw (connect_bad t r p (inr bad)).1 v
      | inr hp ↦ elim (disconnect-cases t r p hr hp) [
        | inl (i, f, e) ↦ rw e (dropped-IsValid t i v f.within (client-live t r p i hr f.passes).0)
        | inr (_, e) ↦ rw e v
      ]
    ]
  ]

-- The table that `connections_setup` leaves is valid, of any length.
pub connections_setup-IsValid : (n : ℕ) → IsValid n connections_setup
unfolding connections_setup
connections_setup-IsValid n = record { distinct = λ i j hi hj live. cc; counted = λ i hi live. cc }
