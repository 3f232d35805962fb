-- ===== src/Sysv/Pool.antt =====
-- A pool of the kernel's resources, for the tests: the status word is a flag, and the lowest unused
-- entry is allocated first.
use multikernel.Common.{
  ℕ, ◌<◌, ◌≡◌, refl, inl, inr, Bool, true, false, not, Option, none, some, search_array,
  search-cases, arith, ◌⊎◌,
}
use multikernel.Sysv.Resource.{ResourceOps}

abbrev pub flag_alloc : Option ℕ → Option (ℕ × Bool)
flag_alloc none = none
flag_alloc (some i) = some (i, true)

flag_alloc-cases :
    (rs : ℕ → Bool) (n : ℕ)
    → ((flag_alloc (search_array (λ i. not (rs i)) n) ≡ none) × ((i : ℕ) → i < n → rs i ≡ true))
      ⊎ ((i : ℕ) × (flag_alloc (search_array (λ i. not (rs i)) n) ≡ some (i, true))
          × (i < n)
          × (rs i ≡ false))
flag_alloc-cases rs n = elim (search-cases (λ i. not (rs i)) n) [
  | inl (e, h) ↦ inl (rw e refl, λ i lt. ground (arith, h i lt))
  | inr (i, e, f) ↦ inr (i, rw e refl, f.within, ground (arith, f.passes))
]

abbrev pub Found :
    (rs : ℕ → Bool) (n i : ℕ) (r : Bool)
    → flag_alloc (search_array (λ i. not (rs i)) n) ≡ some (i, r)
    → Type 0
Found rs n i r e = (i < n) × (rs i ≡ false) × (r ≡ true)

pub flag_alloc-Found :
    (rs : ℕ → Bool) (n i : ℕ) (r : Bool)
    (e : flag_alloc (search_array (λ i. not (rs i)) n) ≡ some (i, r))
    → Found rs n i r e
flag_alloc-Found rs n i r e = elim (flag_alloc-cases rs n) [
  | inl (e', _) ↦ cc
  | inr (j, e', lt, clear) ↦ ground (arith, e, e', lt, clear)
]

pub flag_alloc-full :
    (rs : ℕ → Bool) (n : ℕ)
    → flag_alloc (search_array (λ i. not (rs i)) n) ≡ none
    → (i : ℕ) → i < n
    → rs i ≡ true
flag_alloc-full rs n e = elim (flag_alloc-cases rs n) [ inl (_, h) ↦ h | inr (j, e', _, _) ↦ cc ]

abbrev pub flags : ResourceOps
flags = record {
  Resource = Bool;
  initializer = false;
  is_used = λ r. r;
  alloc = λ rs n. flag_alloc (search_array (λ i. not (rs i)) n);
  release = λ r. false;
  initializer_unused = refl;
  alloc_within = λ rs n i r e. (flag_alloc-Found rs n i r e).0;
  alloc_unused = λ rs n i r e. (flag_alloc-Found rs n i r e).1;
  alloc_used = λ rs n i r e. (flag_alloc-Found rs n i r e).2;
  alloc_full = flag_alloc-full;
  release_unused = λ r. refl;
}
