-- ===== src/NameServer/Link.antt =====
-- `do_name_link` and `do_name_lookup`: what linking a name does to the map of names.
use multikernel.Common.{
  ℕ, ◌<◌, ◌≡◌, refl, sym, ap, ◌∙◌, ◌≢◌, ◌⊎◌, inl, inr, true, false, Bool, Option, none, some, [],
  ◌∷◌, ℤ, pos, negsuc, ==ℤ_iff, ◌+ℤ◌, leb_ℤ, arith, if◌then◌else◌, Bool-cases, update, First,
  search-cases, ok, err, enoent, Errno, Status, fun_ext,
}
use multikernel.NameServer.{
  Name, Names, Proc, Request, name_eq, is_free, is_named, is_link_of, pname_max, count_request,
  count_link, fill, nanvix_name_is_valid, do_name_lookup, do_name_link,
}
use multikernel.NameServer.Valid.{IsValid, name_eq_iff, write-IsValid}
use multikernel.NameServer.Cases.{
  Link, link_of, binding, Holds, Unused, binding_held, binding-Unused, binding_other, binding_self,
  binding_new, named_live, other_name,
}

pub Status-cases : (r : Status) → (r ≡ ok tt) ⊎ ((e : Errno) × (r ≡ err e))
Status-cases (ok u) = inl refl
Status-cases (err e) = inr (e, refl)

abbrev pub IsName : Name → Type 0
IsName name = nanvix_name_is_valid (some name) ≡ ok tt

pub name-nonempty : (name : Name) → IsName name → name ≢ []
name-nonempty [] h e = ground arith
name-nonempty (x ∷ xs) h e = cc

abbrev pub Resolves : Option Link → Status × ℤ → Type 0
Resolves none r = r ≡ (err enoent, negsuc 0)
Resolves (some l) r = r ≡ (ok tt, l.node)

abbrev pub LooksUp : Names → Request → Status × ℤ × Names → Type 0
LooksUp s request (r, node, s') =
    Resolves (binding s.procs request.name) (r, node)
    × (s'.procs ≡ s.procs)
    × (s'.nr_registration ≡ s.nr_registration)

-- A lookup of a proper name returns the node that the name is linked to, and fails with ENOENT
-- exactly if it is linked to none; it changes no entry.
pub do_name_lookup_lem :
    (s : Names) (request : Request)
    → IsName request.name
    → LooksUp s request (do_name_lookup s request)
unfolding do_name_lookup binding
do_name_lookup_lem s request h =
    elim (search-cases (λ j. is_named request.name (s.procs j)) pname_max) [
      | inl (e, absent) ↦ rw (h, e, do_name_lookup) (refl, refl, refl)
      | inr (i, e, f) ↦ rw (h, e, do_name_lookup) (refl, refl, refl)
    ]

-- The entry that a new link is put in.
abbrev linked_once : Proc → Request → Proc
linked_once p request = record p {
  name = request.name;
  nodenum = pos request.source;
  port_nr = pos request.mailbox_port;
  refcount = p.refcount +ℤ pos 1;
}

abbrev linked_again : Proc → Proc
linked_again p = record p { refcount = p.refcount +ℤ pos 1 }

filled :
    (s : Names) (request : Request) (i : ℕ)
    → (count_link (fill s request i) i).procs ≡ update s.procs i (linked_once (s.procs i) request)
filled s request i = fun_ext λ j. ground arith

abbrev pub links_of : Option Link → ℤ
links_of none = pos 0
links_of (some l) = l.count

-- The caller's link, one more than there were.
abbrev pub extended : Option Link → Request → Link
extended old request = record {
  node = pos request.source;
  port = pos request.mailbox_port;
  count = links_of old +ℤ pos 1;
}

-- What a request to link a name returns and leaves.
abbrev pub LinksName : Names → Request → Status × Names → Type 0
LinksName s request (r, s') =
    ((r ≢ ok tt) × (s' ≡ count_request s))
    ⊎ ((r ≡ ok tt)
        × ((name : Name)
            → name ≢ []
            → binding s'.procs name ≡ (
                if name_eq name request.name
                then some (extended (binding s.procs request.name) request)
                else binding s.procs name)))

-- A write to the entry of one name, or to a free entry for it, sets that name's binding alone.
binding_write :
    (procs : ℕ → Proc) (named name : Name) (i : ℕ) (p : Proc) (l : Link)
    → is_named named p ≡ true
    → (name_eq name named ≡ false → is_named name (procs i) ≡ false)
    → binding (update procs i p) named ≡ some l
    → binding (update procs i p) name ≡ (if name_eq name named then some l else binding procs name)
binding_write procs named name i p l hp other set = elim (Bool-cases (name_eq name named)) [
  | inl e ↦ rw (e, (name_eq_iff name named).0 e) set
  | inr ne ↦ rw ne (binding_other procs name i p (other ne) (other_name named name p hp ne))
]

link_of_again :
    (p : Proc) (request : Request)
    → is_link_of request p ≡ true
    → link_of (linked_again p) ≡ extended (some (link_of p)) request
link_of_again p request h =
    ground
      (arith, ==ℤ_iff p.nodenum (pos request.source), ==ℤ_iff p.port_nr (pos request.mailbox_port))

-- A free entry has the empty name, which is no other name's.
free_unnamed :
    (s : Names) (name : Name) (i : ℕ)
    → IsValid s
    → name ≢ []
    → i < pname_max
    → is_free (s.procs i) ≡ true
    → is_named name (s.procs i) ≡ false
free_unnamed s name i v ne lt free =
    ground (arith, v.entries i lt, name_eq_iff name (s.procs i).name)

free_unlinked :
    (s : Names) (i : ℕ)
    → IsValid s
    → i < pname_max
    → is_free (s.procs i) ≡ true
    → (s.procs i).refcount ≡ pos 0
free_unlinked s i v lt free = ground (arith, v.entries i lt)

pub recounted : (s : Names) → IsValid s → IsValid (count_request s)
recounted s v = record { entries = v.entries; distinct = v.distinct; total = v.total }

again_IsValid :
    (s : Names) (i : ℕ) (request : Request)
    → IsValid s
    → Holds s.procs request.name i
    → IsName request.name
    → IsValid (count_link (count_request s) i)
again_IsValid s i request v f proper =
    let live =
      named_live s request.name i v (name-nonempty request.name proper) f.within f.passes in
    write-IsValid (count_request s) i (linked_again (s.procs i)) (s.nr_registration +ℤ pos 1)
      (recounted s v) f.within (ground (arith, live, v.entries i f.within))
      (λ j hj ne _ same. ne (sym (v.distinct i j f.within hj live.0 same))) (ground (arith, live.2))

new_IsValid :
    (s : Names) (i : ℕ) (request : Request)
    → IsValid s
    → First (λ j. is_free (s.procs j)) pname_max i
    → IsName request.name
    → Unused s.procs request.name
    → IsValid (count_link (fill (count_request s) request i) i)
new_IsValid s i request v f proper absent = rw (filled (count_request s) request i) (
    write-IsValid (count_request s) i (linked_once (s.procs i) request) (s.nr_registration +ℤ pos 1)
      (recounted s v) f.within
      (inr (
        refl,
        name-nonempty request.name proper,
        ground (arith, free_unlinked s i v f.within f.passes),
      ))
      (λ j hj ne _ same. ground (arith, absent j hj, name_eq_iff request.name (s.procs j).name))
      (ground (arith, free_unlinked s i v f.within f.passes)))

module _ (node_is_valid : ℤ → Bool) where
  -- The ways of a link request: refused; one more link of the same client; a new link.
  pub do_name_link-cases :
      (s : Names) (request : Request)
      → (((do_name_link node_is_valid s request).0 ≢ ok tt)
          × ((do_name_link node_is_valid s request).1 ≡ count_request s))
        ⊎ ((i : ℕ) × IsName request.name
            × Holds s.procs request.name i
            × (is_link_of request (s.procs i) ≡ true)
            × (do_name_link node_is_valid s request ≡ (ok tt, count_link (count_request s) i)))
        ⊎ ((i : ℕ) × IsName request.name
            × Unused s.procs request.name
            × First (λ j. is_free (s.procs j)) pname_max i
            × (do_name_link node_is_valid s request
                ≡ (ok tt, count_link (fill (count_request s) request i) i)))
  unfolding do_name_link
  do_name_link-cases s request = elim (Bool-cases (node_is_valid (pos request.source))) [
    | inr bad ↦ inl (rw bad (λ h. cc), rw bad)
    | inl good ↦ elim (Status-cases (nanvix_name_is_valid (some request.name))) [
      | inr (e, bad) ↦ inl (rw (good, bad) (λ h. cc), rw (good, bad))
      | inl proper ↦ elim (Bool-cases (leb_ℤ (pos pname_max) s.nr_registration)) [
        | inl full ↦ inl (rw (good, proper, full) (λ h. cc), rw (good, proper, full))
        | inr room ↦ elim (search-cases (λ j. is_named request.name (s.procs j)) pname_max) [
          | inr (i, e, f) ↦ elim (Bool-cases (is_link_of request (s.procs i))) [
            | inl mine ↦ inr (inl (i, proper, f, mine, rw (good, proper, room, e) (rw mine)))
            | inr other ↦ inl (
              rw (good, proper, room, e) (rw other (λ h. cc)),
              rw (good, proper, room, e) (rw other),
            )
          ]
          | inl (e, absent) ↦ elim (search-cases (λ j. is_free (s.procs j)) pname_max) [
            | inr (i, e', f) ↦ inr (inr (i, proper, absent, f, rw (good, proper, room, e, e')))
            | inl (e', taken) ↦
                inl (rw (good, proper, room, e, e') (λ h. cc), rw (good, proper, room, e, e'))
          ]
        ]
      ]
    ]
  ]

  -- A link request either is refused, and then changes no entry; or succeeds, and then the name is
  -- linked to the caller's node and port, once more than before, and no other name's link changes.
  pub do_name_link_refines :
      (s : Names) (request : Request)
      → IsValid s
      → LinksName s request (do_name_link node_is_valid s request)
  do_name_link_refines s request v = elim (do_name_link-cases s request) [
    | inl refused ↦ inl refused
    | inr (inl (i, proper, f, mine, e)) ↦ inr (
      rw e refl,
      λ name ne.
          rw (e, binding_held s.procs request.name i f)
            (binding_write s.procs request.name name i (linked_again (s.procs i)) _ f.passes
              (other_name request.name name (s.procs i) f.passes)
              (binding_self s.procs request.name i (linked_again (s.procs i)) f f.passes
                ∙ ap some (link_of_again (s.procs i) request mine))),
    )
    | inr (inr (i, proper, absent, f, e)) ↦ inr (
      rw e refl,
      λ name ne.
          rw (e, filled (count_request s) request i, binding-Unused s.procs request.name absent)
            (binding_write s.procs request.name name i (linked_once (s.procs i) request) _
              ((name_eq_iff request.name request.name).1 refl)
              (λ _. free_unnamed s name i v ne f.within f.passes)
              (binding_new s.procs request.name i (linked_once (s.procs i) request) f.within absent
                  ((name_eq_iff request.name request.name).1 refl)
                ∙ ground (arith, free_unlinked s i v f.within f.passes))),
    )
  ]

  -- Linking keeps the invariant.
  pub do_name_link-IsValid :
      (s : Names) (request : Request) → IsValid s → IsValid (do_name_link node_is_valid s request).1
  do_name_link-IsValid s request v = elim (do_name_link-cases s request) [
    | inl (_, e) ↦ rw e (recounted s v)
    | inr (inl (i, proper, f, mine, e)) ↦ rw e (again_IsValid s i request v f proper)
    | inr (inr (i, proper, absent, f, e)) ↦ rw e (new_IsValid s i request v f proper absent)
  ]
