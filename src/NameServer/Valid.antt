-- ===== src/NameServer/Valid.antt =====
-- The invariant of the name server's table, and when a write to one entry keeps it.
use multikernel.Common.{
  ℕ, ◌+◌, ◌≤◌, ◌<◌, ◌≡◌, refl, ◌≢◌, ◌⊎◌, inl, inr, true, false, [], ◌∷◌, ℤ, pos, pos_part, ◌+ℤ◌,
  ◌-ℤ◌, arith, ◌==◌, Bool-cases, update, sum_below, sum_below_change, ◌↔◌,
}
use multikernel.NameServer.{Name, Names, Proc, name_eq, is_free, pname_max}

pub name_eq_iff : (a b : Name) → (name_eq a b ≡ true) ↔ (a ≡ b)
name_eq_iff [] [] = ((λ h. refl), (λ h. refl))
name_eq_iff [] (y ∷ ys) = ((λ h. cc), (λ h. cc))
name_eq_iff (x ∷ xs) [] = ((λ h. cc), (λ h. cc))
name_eq_iff (x ∷ xs) (y ∷ ys) =
    ((λ h. ground (arith, (name_eq_iff xs ys).0)), (λ h. ground (arith, (name_eq_iff xs ys).1)))

-- A free entry has no name and no link; one in use has a name, and a link at least.
abbrev pub IsEntry : Proc → Type 0
IsEntry p =
    ((is_free p ≡ true) × (p.name ≡ []) × (p.refcount ≡ pos 0))
    ⊎ ((is_free p ≡ false) × (p.name ≢ []) × (1 ≤ pos_part p.refcount))

-- The links of all the entries.
abbrev pub links : (ℕ → Proc) → ℕ
links procs = sum_below (λ i. pos_part (procs i).refcount) pname_max

pub record IsValid (s : Names) : Type 0 where
  pub entries : (i : ℕ) → i < pname_max → IsEntry (s.procs i)
  pub distinct :
      (i j : ℕ)
      → i < pname_max
      → j < pname_max
      → is_free (s.procs i) ≡ false
      → (s.procs i).name ≡ (s.procs j).name
      → i ≡ j
  pub total : s.nr_registration ≡ pos (links s.procs) -ℤ pos 1

-- Writing an entry changes the number of links by the change of its own.
links-update :
    (procs : ℕ → Proc) (i : ℕ) (p : Proc)
    → i < pname_max
    → links (update procs i p) + pos_part (procs i).refcount ≡ links procs + pos_part p.refcount
links-update procs i p lt = ground (
  arith,
  sum_below_change (λ j. pos_part (procs j).refcount) (λ j. pos_part (update procs i p j).refcount)
      pname_max i lt (λ j ne. ground arith),
)

-- A write of an entry whose name no other entry has, with the registrations counted along.
pub write-IsValid :
    (s : Names) (i : ℕ) (p : Proc) (nr : ℤ)
    → IsValid s
    → i < pname_max
    → IsEntry p
    → ((j : ℕ) → j < pname_max → j ≢ i → is_free p ≡ false → p.name ≢ (s.procs j).name)
    → nr +ℤ pos (pos_part (s.procs i).refcount) ≡ s.nr_registration +ℤ pos (pos_part p.refcount)
    → IsValid (record s { nr_registration = nr; procs = update s.procs i p })
write-IsValid s i p nr v lt good other count = record {
  entries = λ j hj. elim (Bool-cases (i == j)) [
    | inl hit ↦ rw hit good
    | inr miss ↦ rw miss (v.entries j hj)
  ];
  distinct = λ a b ha hb. elim (Bool-cases (i == a)) [
    | inl ea ↦ elim (Bool-cases (i == b)) [
      | inl eb ↦ ground arith
      | inr nb ↦ ground (arith, other b)
    ]
    | inr na ↦ elim (Bool-cases (i == b)) [
      | inl eb ↦ ground (arith, other a, v.entries a ha)
      | inr nb ↦ ground (arith, v.distinct a b)
    ]
  ];
  total = ground (arith, links-update s.procs i p lt, v.total);
}
