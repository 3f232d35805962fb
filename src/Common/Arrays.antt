-- ===== src/Common/Arrays.antt =====
-- A C array of fixed length as a function from its index, the loop that searches one, and the
-- laws of both. Loops give the length as a bound, and an access is proved to stay below it.
use Prim.Native.Nat.{ℕ, zero, suc, ◌+◌, ◌≤◌, ◌<◌}
use mathlib.Core.Path.{◌≡◌, refl}
use mathlib.Core.Logic.{◌≢◌, ◌⊎◌, inl, inr}
use mathlib.Core.Bool.{Bool, true, false}
use mathlib.Core.Option.{Option, none, some}
use native.Mathlib.Omega.{arith}
use multikernel.Common.Tests.{◌==◌, ==_iff, if◌then◌else◌, Bool-cases}

-- `a[i] = v`
abbrev pub update {ℓ} : {A : Type ℓ} → (ℕ → A) → ℕ → A → ℕ → A
update a i v j = if i == j then v else a j

-- `for (; i < i + k; i++) if (p(i)) return i;`, with `k` the rounds that are left.
pub scan : (ℕ → Bool) → ℕ → ℕ → Option ℕ
scan p zero i = none
scan p (suc k) i = let rest = scan p k (suc i) in if p i then some i else rest

-- `for (i = 0; i < n; i++) if (p(i)) return i;`
unfoldable pub search_array : (ℕ → Bool) → ℕ → Option ℕ
unfolding scan
search_array p n = scan p n 0

-- What a search has found: the first index that passes the test.
pub record First (p : ℕ → Bool) (n i : ℕ) : Type 0 where
  pub within : i < n
  pub passes : p i ≡ true
  pub earlier : (j : ℕ) → j < i → p j ≡ false

abbrev pub NoneBelow : (ℕ → Bool) → ℕ → Type 0
NoneBelow p n = (j : ℕ) → j < n → p j ≡ false

abbrev Scanned : (ℕ → Bool) → ℕ → ℕ → Option ℕ → Type 0
Scanned p i n r =
    ((r ≡ none) × ((j : ℕ) → i ≤ j → j < n → p j ≡ false))
    ⊎ ((k : ℕ) × (r ≡ some k)
        × (i ≤ k)
        × (k < n)
        × (p k ≡ true)
        × ((j : ℕ) → i ≤ j → j < k → p j ≡ false))

pub eq_of_le_lt : (i j : ℕ) → i ≤ j → j < suc i → j ≡ i
eq_of_le_lt i j h k = omega arith

subst_false : (p : ℕ → Bool) (i j : ℕ) → p i ≡ false → j ≡ i → p j ≡ false
subst_false p i j h e = rw e h

split_le : (i j : ℕ) → i ≤ j → (j ≡ i) ⊎ (suc i ≤ j)
split_le i j h = omega arith

later_false :
    (p : ℕ → Bool) (i n : ℕ)
    → p i ≡ false
    → ((j : ℕ) → suc i ≤ j → j < n → p j ≡ false)
    → (j : ℕ) → i ≤ j
    → j < n
    → p j ≡ false
later_false p i n h later j le lt = elim (split_le i j le) [
  | inl e ↦ subst_false p i j h e
  | inr le' ↦ later j le' lt
]

scan-Scanned : (p : ℕ → Bool) (k i : ℕ) → Scanned p i (i + k) (scan p k i)
unfolding scan
scan-Scanned p zero i = inl (refl, λ j le lt. absurd (omega arith))
scan-Scanned p (suc k) i = elim (Bool-cases (p i)) [
  | inl hit ↦ inr (i, rw hit, omega arith, omega arith, hit, λ j le lt. absurd (omega arith))
  | inr miss ↦ elim (scan-Scanned p k (suc i)) [
    | inl (e, h) ↦ inl (rw miss e, λ j le lt. later_false p i (suc i + k) miss h j le (omega arith))
    | inr (m, e, le, lt, hm, before) ↦ inr (
      m,
      rw miss e,
      omega arith,
      omega arith,
      hm,
      λ j le' lt'. later_false p i m miss before j le' lt',
    )
  ]
]

-- A search finds the first index that passes, or no index does.
pub search-cases :
    (p : ℕ → Bool) (n : ℕ)
    → ((search_array p n ≡ none) × NoneBelow p n)
      ⊎ ((i : ℕ) × (search_array p n ≡ some i) × First p n i)
unfolding search_array
search-cases p n = elim (scan-Scanned p n 0) [
  | inl (e, h) ↦ inl (e, λ j lt. h j (omega arith) (omega arith))
  | inr (i, e, le, lt, hi, before) ↦ inr (
    i,
    e,
    record { within = omega arith; passes = hi; earlier = λ j lt'. before j (omega arith) lt' },
  )
]

pub search-First : (p : ℕ → Bool) (n i : ℕ) → search_array p n ≡ some i → First p n i
search-First p n i e = elim (search-cases p n) [
  | inl (e', h) ↦ cc
  | inr (k, e', f) ↦ rw (some_eq e e') f
]
  where
    some_eq : {k : ℕ} → search_array p n ≡ some i → search_array p n ≡ some k → i ≡ k
    some_eq a b = cc

pub search-none : (p : ℕ → Bool) (n : ℕ) → search_array p n ≡ none → NoneBelow p n
search-none p n e = elim (search-cases p n) [ inl (e', h) ↦ h | inr (k, e', f) ↦ cc ]

-- An index that alone passes is found.
pub search_unique :
    (p : ℕ → Bool) (n i : ℕ)
    → i < n
    → p i ≡ true
    → ((j : ℕ) → j < n → p j ≡ true → j ≡ i)
    → search_array p n ≡ some i
search_unique p n i lt hi only = elim (search-cases p n) [
  | inl (e, h) ↦ absurd (ground (arith, h i))
  | inr (k, e, f) ↦ rw e (ground (arith, only k f.within f.passes))
]

-- With no index that passes the search fails.
pub search_fails : (p : ℕ → Bool) (n : ℕ) → NoneBelow p n → search_array p n ≡ none
search_fails p n h = elim (search-cases p n) [
  | inl (e, h') ↦ e
  | inr (k, e, f) ↦ absurd (ground (arith, h k f.within, f.passes))
]

-- A property of an entry after a write: of the new value at `i`, and of the old one elsewhere.
pub update-all {ℓ κ} :
    {A : Type ℓ} (P : A → Type κ) (t : ℕ → A) (i : ℕ) (v : A) (j : ℕ)
    → (i ≡ j → P v)
    → (j ≢ i → P (t j))
    → P (update t i v j)
update-all P t i v j new old = elim (Bool-cases (i == j)) [
  | inl hit ↦ rw hit (new ((==_iff i j).0 hit))
  | inr miss ↦ rw miss (old (λ e. ground (arith, miss, e)))
]
