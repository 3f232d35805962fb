-- ===== src/Vfs/Bcache/Evict.antt =====
-- The search of `evict` for a victim: when it ends, and what it selects.
use multikernel.Common.{
  ℕ, zero, suc, ◌+◌, ◌-◌, ◌%◌, ◌<◌, ◌≡◌, ◌≢◌, refl, ap, ◌∙◌, ◌⊎◌, inl, inr, Bool, true, false,
  Option, none, some, pos, negsuc, ◌==◌, ==_iff, arith, Bool-cases, First, NoneBelow, search-cases,
}
use multikernel.Vfs.Bcache.Flags.{FlagOps}
use multikernel.Vfs.Bcache.{Buffer, nr_buffers, last_position, is_spare, candidate, search_victim}

module _ (ops : FlagOps) (bufs : ℕ → Buffer ops) where
  open ops use {is_used, is_dirty}

  abbrev used : ℕ → Bool
  used j = is_used (bufs j).flags

  -- A candidate is a buffer that is not used.
  abbrev IsCandidate : Option ℕ → Type 0
  IsCandidate none = Unit {0}
  IsCandidate (some j) = (j < nr_buffers) × (used j ≡ false)

  -- The rounds that are left from position `i` to position `last`
  abbrev distance : ℕ → ℕ → ℕ
  distance last i = (last + nr_buffers - i) % nr_buffers

  -- What the loop selects from position `i` on: a candidate; or none, and then there was none
  -- before and all that it passes is used.
  abbrev Ends : ℕ → ℕ → Option ℕ → Option (Option ℕ) → Type 0
  Ends last i c none = ⊥
  Ends last i c (some (some j)) = (j < nr_buffers) × (used j ≡ false)
  Ends last i c (some none) =
      (c ≡ none) × ((m : ℕ) → m < distance last i → used ((i + m) % nr_buffers) ≡ true)

  candidate-IsCandidate :
      (i : ℕ) (c : Option ℕ) → i < nr_buffers → IsCandidate c → IsCandidate (candidate ops bufs i c)
  candidate-IsCandidate i c lt h = elim (Bool-cases (used i)) [
    | inl busy ↦ rw busy h
    | inr idle ↦ rw idle (lt, idle)
  ]

  Ends-here : (last i : ℕ) (c : Option ℕ) → i ≡ last → IsCandidate c → Ends last i c (some c)
  Ends-here last i none e h = (refl, λ m lt. absurd (omega arith))
  Ends-here last i (some j) e h = h

  nearer :
      (last i fuel : ℕ)
      → last < nr_buffers
      → i < nr_buffers
      → distance last i < suc fuel
      → i ≢ last
      → distance last ((i + 1) % nr_buffers) < fuel
  nearer last i fuel hl hi lt ne = omega arith

  candidate-none :
      (i : ℕ) (c : Option ℕ) → candidate ops bufs i c ≡ none → (c ≡ none) × (used i ≡ true)
  candidate-none i c e = elim (Bool-cases (used i)) [
    | inl busy ↦ (rw busy at e, busy)
    | inr idle ↦ ground (arith, e, idle)
  ]

  at_first : (i m : ℕ) → i < nr_buffers → m ≡ 0 → (i + m) % nr_buffers ≡ i
  at_first i m lt e = omega arith

  at_later :
      (i m : ℕ) → m ≢ 0 → (i + m) % nr_buffers ≡ ((i + 1) % nr_buffers + (m - 1)) % nr_buffers
  at_later i m ne = omega arith

  before :
      (last i m : ℕ)
      → last < nr_buffers
      → i < nr_buffers
      → i ≢ last
      → m < distance last i
      → m ≢ 0
      → m - 1 < distance last ((i + 1) % nr_buffers)
  before last i m hl hi ne lt later = omega arith

  -- The rounds from position `i` on are the one at `i` and those from the next on.
  Ends-later :
      (last i : ℕ) (c : Option ℕ) (r : Option (Option ℕ))
      → last < nr_buffers
      → i < nr_buffers
      → i ≢ last
      → Ends last ((i + 1) % nr_buffers) (candidate ops bufs i c) r
      → Ends last i c r
  Ends-later last i c none hl hi ne h = h
  Ends-later last i c (some (some j)) hl hi ne h = h
  Ends-later last i c (some none) hl hi ne (e, rest) = (
    (candidate-none i c e).0,
    λ m lt. elim (Bool-cases (m == 0)) [
      | inl first ↦ ap used (at_first i m hi ((==_iff m 0).0 first)) ∙ (candidate-none i c e).1
      | inr later ↦
          ap used (at_later i m (λ z. ground (arith, later, z)))
          ∙ rest (m - 1) (before last i m hl hi ne lt (λ z. ground (arith, later, z)))
    ],
  )

  walk-Ends :
      (fuel last i : ℕ) (c : Option ℕ)
      → last < nr_buffers
      → i < nr_buffers
      → distance last i < fuel
      → IsCandidate c
      → Ends last i c (search_victim ops fuel bufs (pos last) i c)
  unfolding search_victim
  walk-Ends zero last i c hl hi lt h = elim lt [ ]
  walk-Ends (suc fuel) last i c hl hi lt h = elim (Bool-cases (i == last)) [
    | inl here ↦ rw here (Ends-here last i c ((==_iff i last).0 here) h)
    | inr on ↦ elim (Bool-cases (is_spare ops (bufs i))) [
      | inl spare ↦ rw (on, spare) (hi, ground (arith, spare))
      | inr busy ↦
          rw (on, busy)
            (Ends-later last i c _ hl hi (λ e. ground (arith, on, e))
              (walk-Ends fuel last ((i + 1) % nr_buffers) (candidate ops bufs i c) hl (omega arith)
                (nearer last i fuel hl hi lt (λ e. ground (arith, on, e)))
                (candidate-IsCandidate i c hi h)))
    ]
  ]

  -- With no stop and no spare buffer the loop goes on for ever.
  never_ends :
      (fuel i : ℕ) (c : Option ℕ)
      → NoneBelow (λ j. is_spare ops (bufs j)) nr_buffers
      → i < nr_buffers
      → search_victim ops fuel bufs (negsuc 0) i c ≡ none
  unfolding search_victim
  never_ends zero i c h lt = refl
  never_ends (suc fuel) i c h lt =
      rw (h i lt, never_ends fuel ((i + 1) % nr_buffers) (candidate ops bufs i c) h (omega arith))
        refl

  -- It ends at the first spare buffer.
  reaches :
      (m fuel i j : ℕ) (c : Option ℕ)
      → First (λ j. is_spare ops (bufs j)) nr_buffers j
      → i + m ≡ j
      → m < fuel
      → search_victim ops fuel bufs (negsuc 0) i c ≡ some (some j)
  unfolding search_victim
  reaches m zero i j c f e lt = elim lt [ ]
  reaches zero (suc fuel) i j c f e lt = let same : i ≡ j = omega arith in rw (same, f.passes) refl
  reaches (suc m) (suc fuel) i j c f e lt = rw (f.earlier i (omega arith)) (
      reaches m fuel ((i + 1) % nr_buffers) j (candidate ops bufs i c) f (omega (arith, f.within))
        (omega arith))

  -- What a search that ends selects: a buffer that is not used; or none, and then every buffer is
  -- used, but for the one before the start, at which the search does not look.
  abbrev pub Selects : ℕ → Option ℕ → Type 0
  Selects k none =
      (j : ℕ) → j < nr_buffers → (j + 1) % nr_buffers ≢ k → is_used (bufs j).flags ≡ true
  Selects k (some j) = (j < nr_buffers) × (is_used (bufs j).flags ≡ false)

  selected_at :
      (k : ℕ) (r : Option (Option ℕ))
      → k < nr_buffers
      → k ≢ 0
      → Ends (k - 1) k none r
      → (c : Option ℕ) × (r ≡ some c) × Selects k c
  selected_at k none lt ne h = absurd h
  selected_at k (some (some j)) lt ne h = (some j, refl, h)
  selected_at k (some none) lt ne (_, all) = (
    none,
    refl,
    λ j hj other.
        ap used (position k j lt hj) ∙ all ((j + nr_buffers - k) % nr_buffers) (omega arith),
  )
    where
      position :
          (k j : ℕ)
          → k < nr_buffers
          → j < nr_buffers
          → j ≡ (k + (j + nr_buffers - k) % nr_buffers) % nr_buffers
      position k j lt hj = omega arith

  at_start : (k j : ℕ) → k ≡ 0 → k + j ≡ j
  at_start k j e = omega arith

  last_before : (k : ℕ) → k < nr_buffers → (k - 1) % nr_buffers ≡ k - 1
  last_before k lt = omega arith

  -- The search for a victim runs for ever, with whatever fuel, if it starts at the first buffer and
  -- every buffer is used or dirty. Otherwise it ends within one round for each buffer, and selects a
  -- buffer that is not used; or none, and then every buffer is used, but for the one before the
  -- start, at which it does not look.
  pub search_victim-terminates :
      (k : ℕ)
      → k < nr_buffers
      → ((k ≡ 0)
          × ((j : ℕ) → j < nr_buffers → is_spare ops (bufs j) ≡ false)
          × ((fuel : ℕ) → search_victim ops fuel bufs (last_position k) k none ≡ none))
        ⊎ ((c : Option ℕ) × (search_victim ops nr_buffers bufs (last_position k) k none ≡ some c)
            × Selects k c)
  search_victim-terminates k lt = elim (Bool-cases (k == 0)) [
    | inl start ↦ elim (search-cases (λ j. is_spare ops (bufs j)) nr_buffers) [
      | inl (_, busy) ↦
          inl ((==_iff k 0).0 start, busy, λ fuel. rw start (never_ends fuel k none busy lt))
      | inr (j, _, f) ↦ inr (
        some j,
        rw start (reaches j nr_buffers k j none f (at_start k j ((==_iff k 0).0 start)) f.within),
        (f.within, ground (arith, f.passes)),
      )
    ]
    | inr on ↦ inr (
        rw (on, last_before k lt)
          (selected_at k _ lt (λ z. ground (arith, on, z))
            (walk-Ends nr_buffers (k - 1) k none (omega arith) lt (omega arith) tt)))
  ]
