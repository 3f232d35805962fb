-- ===== src/Common/Table.antt =====
-- Searching an array of entries for the first that passes a test, and what a write to one entry
-- does to the result of such a search.
use Prim.Native.Nat.{ℕ, ◌<◌}
use mathlib.Core.Path.{◌≡◌, sym, ap, ◌∙◌}
use mathlib.Core.Logic.{◌≢◌, inl, inr}
use mathlib.Core.Bool.{Bool, true, false}
use mathlib.Core.Option.{Option, none, some}
use native.Mathlib.Omega.{arith}
use multikernel.Common.Tests.{◌==◌, Bool-cases, ==_refl, ==_iff}
use multikernel.Common.Arrays.{
  update, search_array, search-cases, search_unique, search_fails, First,
}

-- `for (i = 0; i < n; i++) if (q(t[i])) return i;`
abbrev pub find_entry {ℓ} : {A : Type ℓ} → (A → Bool) → (ℕ → A) → ℕ → Option ℕ
find_entry q t n = search_array (λ i. q (t i)) n

pub search_of_First : (p : ℕ → Bool) (n i : ℕ) → First p n i → search_array p n ≡ some i
search_of_First p n i f = elim (search-cases p n) [
  | inl (e, h) ↦ absurd (ground (arith, h i f.within, f.passes))
  | inr (k, e, g) ↦ rw e (ground (arith, f.earlier k, g.earlier i, f.passes, g.passes))
]

pub search-ext :
    (p q : ℕ → Bool) (n : ℕ) → ((j : ℕ) → j < n → p j ≡ q j) → search_array p n ≡ search_array q n
search-ext p q n h = elim (search-cases q n) [
  | inl (e, none_q) ↦ rw e (search_fails p n (λ j lt. h j lt ∙ none_q j lt))
  | inr (k, e, f) ↦ rw e (
      search_of_First p n k (record {
        within = f.within;
        passes = h k f.within ∙ f.passes;
        earlier = λ j lt. h j (below_trans lt f.within) ∙ f.earlier j lt;
      }))
]
  where
    below_trans : {a b c : ℕ} → a < b → b < c → a < c
    below_trans x y = omega arith

module _ {ℓ} {A : Type ℓ} (q : A → Bool) (t : ℕ → A) (n : ℕ) where
  test-update : (i : ℕ) (v : A) (j : ℕ) → j ≢ i → q (update t i v j) ≡ q (t j)
  test-update i v j ne = ground arith

  test-update_self : (i : ℕ) (v : A) → q (update t i v i) ≡ q v
  test-update_self i v = rw (==_refl i)

  -- A write that the test does not tell from the old entry leaves the search as it was.
  pub find-update_same :
      (i : ℕ) (v : A) → q v ≡ q (t i) → find_entry q (update t i v) n ≡ find_entry q t n
  find-update_same i v e = search-ext _ _ n λ j lt. elim (Bool-cases (i == j)) [
    | inl hit ↦ rw hit (e ∙ ap (λ k. q (t k)) ((==_iff i j).0 hit))
    | inr miss ↦ rw miss
  ]

  -- A passing entry written where none passed is what the search then finds.
  pub find-update_new :
      (i : ℕ) (v : A)
      → i < n
      → find_entry q t n ≡ none
      → q v ≡ true
      → find_entry q (update t i v) n ≡ some i
  find-update_new i v lt e hv = elim (search-cases (λ j. q (t j)) n) [
    | inr (k, e', f) ↦ absurd (cc)
    | inl (e', h) ↦ search_unique _ n i lt (test-update_self i v ∙ hv) λ j lt' pass.
        elim (Bool-cases (i == j)) [
          | inl hit ↦ sym ((==_iff i j).0 hit)
          | inr miss ↦ absurd (ground (arith, h j lt'))
        ]
  ]

  -- Where only one entry passes, a failing one written over it leaves none.
  pub find-update_gone :
      (i : ℕ) (v : A)
      → q v ≡ false
      → ((j : ℕ) → j < n → q (t j) ≡ true → j ≡ i)
      → find_entry q (update t i v) n ≡ none
  find-update_gone i v hv only = search_fails _ n λ j lt. elim (Bool-cases (i == j)) [
    | inl hit ↦ rw hit hv
    | inr miss ↦ rw miss (elim (Bool-cases (q (t j))) [
      | inl pass ↦ absurd (ground (arith, only j lt pass))
      | inr fail ↦ fail
    ])
  ]
