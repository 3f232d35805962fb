-- ===== src/NameServer/Cases.antt =====
-- The table of names as a partial map from names to links, and what writes to the table do to it.
use multikernel.Common.{
  ℕ, ◌≤◌, ◌<◌, ◌≡◌, sym, ◌∙◌, ◌≢◌, inl, inr, true, false, Option, none, some, [], ℤ, pos_part,
  arith, update, First, NoneBelow, find_entry, search-cases, search_of_First, search_fails,
  find-update_same, find-update_new, find-update_gone,
}
use multikernel.NameServer.{Name, Names, Proc, name_eq, is_free, is_named, pname_max}
use multikernel.NameServer.Valid.{IsValid, name_eq_iff}

-- What a name is linked to, and how often.
pub record Link : Type 0 where
  pub node : ℤ
  pub port : ℤ
  pub count : ℤ

abbrev pub link_of : Proc → Link
link_of p = record { node = p.nodenum; port = p.port_nr; count = p.refcount }

abbrev pub link_at : (ℕ → Proc) → Option ℕ → Option Link
link_at procs none = none
link_at procs (some i) = some (link_of (procs i))

-- The link of a name, if it has one.
unfoldable pub binding : (ℕ → Proc) → Name → Option Link
binding procs name = link_at procs (find_entry (is_named name) procs pname_max)

abbrev pub Holds : (ℕ → Proc) → Name → ℕ → Type 0
Holds procs name i = First (λ j. is_named name (procs j)) pname_max i

abbrev pub Unused : (ℕ → Proc) → Name → Type 0
Unused procs name = NoneBelow (λ j. is_named name (procs j)) pname_max

module _ (procs : ℕ → Proc) (name : Name) where
  pub binding_held : (i : ℕ) → Holds procs name i → binding procs name ≡ some (link_of (procs i))
  unfolding binding
  binding_held i f = rw (search_of_First _ pname_max i f)

  pub binding-Unused : Unused procs name → binding procs name ≡ none
  unfolding binding
  binding-Unused h = rw (search_fails _ pname_max h)

  at-update :
      (i : ℕ) (p : Proc)
      → is_named name (procs i) ≡ false
      → link_at (update procs i p) (find_entry (is_named name) procs pname_max)
        ≡ link_at procs (find_entry (is_named name) procs pname_max)
  at-update i p miss = elim (search-cases (λ j. is_named name (procs j)) pname_max) [
    | inl (e, h) ↦ rw e
    | inr (k, e, f) ↦ rw e (ground (arith, f.passes))
  ]

  -- A write to an entry of another name, by one of another name, keeps the binding.
  pub binding_other :
      (i : ℕ) (p : Proc)
      → is_named name (procs i) ≡ false
      → is_named name p ≡ false
      → binding (update procs i p) name ≡ binding procs name
  unfolding binding
  binding_other i p h h' =
      rw (find-update_same (is_named name) procs pname_max i p (h' ∙ sym h)) (at-update i p h)

  -- A write to the entry of the name sets the binding.
  pub binding_self :
      (i : ℕ) (p : Proc)
      → Holds procs name i
      → is_named name p ≡ true
      → binding (update procs i p) name ≡ some (link_of p)
  unfolding binding
  binding_self i p f h =
      rw
        (
          find-update_same (is_named name) procs pname_max i p (h ∙ sym f.passes),
          search_of_First _ pname_max i f,
        )
        (ground arith)

  -- So does an entry for a name that had none.
  pub binding_new :
      (i : ℕ) (p : Proc)
      → i < pname_max
      → Unused procs name
      → is_named name p ≡ true
      → binding (update procs i p) name ≡ some (link_of p)
  unfolding binding
  binding_new i p lt h hp =
      rw (find-update_new (is_named name) procs pname_max i p lt (search_fails _ pname_max h) hp)
        (ground arith)

  pub binding_gone :
      (i : ℕ) (p : Proc)
      → is_named name p ≡ false
      → ((j : ℕ) → j < pname_max → is_named name (procs j) ≡ true → j ≡ i)
      → binding (update procs i p) name ≡ none
  unfolding binding
  binding_gone i p h only = rw (find-update_gone (is_named name) procs pname_max i p h only)

-- An entry that has a name is in use, and is the only one of that name.
pub named_live :
    (s : Names) (name : Name) (i : ℕ)
    → IsValid s
    → name ≢ []
    → i < pname_max
    → is_named name (s.procs i) ≡ true
    → (is_free (s.procs i) ≡ false)
      × (name ≡ (s.procs i).name)
      × (1 ≤ pos_part (s.procs i).refcount)
named_live s name i v ne lt h =
    let e = (name_eq_iff name (s.procs i).name).0 h in
    elim (v.entries i lt) [
      | inl (free, empty, none_left) ↦ absurd (ne (e ∙ empty))
      | inr (live, _, counted) ↦ (live, e, counted)
    ]

pub named_once :
    (s : Names) (name : Name) (i j : ℕ)
    → IsValid s
    → name ≢ []
    → i < pname_max
    → j < pname_max
    → is_named name (s.procs i) ≡ true
    → is_named name (s.procs j) ≡ true
    → j ≡ i
named_once s name i j v ne hi hj h h' =
    v.distinct j i hj hi (named_live s name j v ne hj h').0
      (sym (named_live s name j v ne hj h').1 ∙ (named_live s name i v ne hi h).1)

-- The entry of one name is not named by another.
pub other_name :
    (name name' : Name) (p : Proc)
    → is_named name p ≡ true
    → name_eq name' name ≡ false
    → is_named name' p ≡ false
other_name name name' p h ne =
    ground (arith, name_eq_iff name p.name, name_eq_iff name' p.name, name_eq_iff name' name)
