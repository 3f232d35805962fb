-- ===== src/NameServer/Unlink.antt =====
-- `do_name_unlink`: what it does to the map of names, and by whom it can be called.
use multikernel.Common.{
  ℕ, ◌<◌, ◌≡◌, refl, sym, ◌≢◌, ◌⊎◌, inl, inr, true, false, Bool, not, ◌&&◌, Option, none, some, [],
  ◌∷◌, pos, negsuc, ◌==ℤ◌, ==ℤ_iff, ◌-ℤ◌, arith, if◌then◌else◌, Bool-cases, update, find_entry,
  search-cases, search-ext, ok, err, einval, enoent, Status,
}
use multikernel.NameServer.{
  Name, Names, Proc, Request, name_eq, is_free, is_named, pname_max, count_request, do_name_unlink,
  unlinked,
}
use multikernel.NameServer.Valid.{IsValid, name_eq_iff, write-IsValid}
use multikernel.NameServer.Cases.{
  Link, link_of, binding, Holds, Unused, binding_held, binding-Unused, binding_other, binding_self,
  binding_gone, named_live, named_once, other_name,
}
use multikernel.NameServer.Link.{IsName, name-nonempty, recounted}

-- In a valid table the search of `do_name_unlink`, which skips free entries, passes the same entries
-- as that of `do_name_lookup`.
skips_nothing :
    (s : Names) (name : Name) (j : ℕ)
    → IsValid s
    → name ≢ []
    → j < pname_max
    → (not (is_free (s.procs j)) && is_named name (s.procs j)) ≡ is_named name (s.procs j)
skips_nothing s name j v ne lt = elim (Bool-cases (is_named name (s.procs j))) [
  | inl h ↦ ground (arith, named_live s name j v ne lt h)
  | inr h ↦ ground arith
]

same_search :
    (s : Names) (name : Name)
    → IsValid s
    → name ≢ []
    → find_entry (λ p. not (is_free p) && is_named name p) s.procs pname_max
      ≡ find_entry (is_named name) s.procs pname_max
same_search s name v ne = search-ext _ _ pname_max (λ j lt. skips_nothing s name j v ne lt)

-- The state that an unlinking of entry `i` leaves.
abbrev pub after_unlink : Names → ℕ → Names
after_unlink s i = record (count_request s) {
  nr_registration = s.nr_registration -ℤ pos 1;
  procs = update s.procs i (unlinked (s.procs i));
}

abbrev pub is_port_of : Request → Proc → Bool
is_port_of request p = p.port_nr ==ℤ pos request.mailbox_port

-- The ways of a request to unlink a proper name.
pub do_name_unlink-cases :
    (s : Names) (request : Request)
    → IsValid s
    → IsName request.name
    → (Unused s.procs request.name × (do_name_unlink s request ≡ (err enoent, count_request s)))
      ⊎ ((i : ℕ) × Holds s.procs request.name i
          × (is_port_of request (s.procs i) ≡ false)
          × (do_name_unlink s request ≡ (err einval, count_request s)))
      ⊎ ((i : ℕ) × Holds s.procs request.name i
          × (is_port_of request (s.procs i) ≡ true)
          × (do_name_unlink s request ≡ (ok tt, after_unlink s i)))
unfolding do_name_unlink
do_name_unlink-cases s request v proper =
    let same = same_search s request.name v (name-nonempty request.name proper) in
    elim (search-cases (λ j. is_named request.name (s.procs j)) pname_max) [
      | inl (e, absent) ↦ inl (absent, rw (proper, same, e, do_name_unlink))
      | inr (i, e, f) ↦ elim (Bool-cases (is_port_of request (s.procs i))) [
        | inr other ↦ inr (inl (i, f, other, rw (proper, same, e, do_name_unlink) (rw other)))
        | inl mine ↦ inr (inr (i, f, mine, rw (proper, same, e, do_name_unlink) (rw mine)))
      ]
    ]

-- The link that is left of one: none of the last.
abbrev pub reduced : Link → Option Link
reduced l =
    if l.count -ℤ pos 1 ==ℤ pos 0 then none else some (record l { count = l.count -ℤ pos 1 })

abbrev released : Proc → Proc
released p = record p {
  name = [];
  nodenum = negsuc 0;
  port_nr = negsuc 0;
  refcount = p.refcount -ℤ pos 1;
}

binding-unlinked :
    (s : Names) (request : Request)
    → IsValid s
    → IsName request.name
    → (i : ℕ) → Holds s.procs request.name i
    → (name : Name) → name ≢ []
    → binding (update s.procs i (unlinked (s.procs i))) name
      ≡ (if name_eq name request.name then reduced (link_of (s.procs i)) else binding s.procs name)
unfolding unlinked
binding-unlinked s request v proper i f name ne =
    elim (Bool-cases ((s.procs i).refcount -ℤ pos 1 ==ℤ pos 0)) [
      | inl last ↦ rw last (elim (Bool-cases (name_eq name request.name)) [
        | inl e ↦
            rw (e, (name_eq_iff name request.name).0 e)
              (binding_gone s.procs request.name i (released (s.procs i))
                (no_name request.name named)
                (λ j hj. named_once s request.name i j v named f.within hj f.passes))
        | inr ne' ↦ rw ne' (
            binding_other s.procs name i (released (s.procs i))
              (other_name request.name name (s.procs i) f.passes ne') (no_name name ne))
      ])
      | inr more ↦ rw more (elim (Bool-cases (name_eq name request.name)) [
        | inl e ↦
            rw (e, (name_eq_iff name request.name).0 e)
              (binding_self s.procs request.name i _ f f.passes)
        | inr ne' ↦ rw ne' (
            binding_other s.procs name i _ (other_name request.name name (s.procs i) f.passes ne')
              (other_name request.name name (s.procs i) f.passes ne'))
      ])
    ]
  where
    named : request.name ≢ []
    named = name-nonempty request.name proper

    no_name : (n : Name) → n ≢ [] → name_eq n [] ≡ false
    no_name [] h = absurd (h refl)
    no_name (x ∷ xs) h = refl

unlinked_IsValid :
    (s : Names) (request : Request)
    → IsValid s
    → IsName request.name
    → (i : ℕ) → Holds s.procs request.name i
    → IsValid (after_unlink s i)
unfolding unlinked
unlinked_IsValid s request v proper i f =
    let live =
      named_live s request.name i v (name-nonempty request.name proper) f.within f.passes in
    write-IsValid (count_request s) i (unlinked (s.procs i)) (s.nr_registration -ℤ pos 1)
      (recounted s v) f.within (ground (arith, live, v.entries i f.within))
      (λ j hj ne free same. ne (sym (v.distinct i j f.within hj live.0 (ground arith))))
      (ground (arith, live.2))

-- What a request to unlink a name returns and leaves.
abbrev pub UnlinksName : Names → Request → Status × Names → Type 0
UnlinksName s request (r, s') =
    ((binding s.procs request.name ≡ none)
      × (◌≡◌ {A = Status × Names} (r, s') (err enoent, count_request s)))
    ⊎ ((l : Link) × (binding s.procs request.name ≡ some l)
        × (l.port ≢ pos request.mailbox_port)
        × (◌≡◌ {A = Status × Names} (r, s') (err einval, count_request s)))
    ⊎ ((l : Link) × (binding s.procs request.name ≡ some l)
        × (l.port ≡ pos request.mailbox_port)
        × (r ≡ ok tt)
        × ((name : Name)
            → name ≢ []
            → binding s'.procs name
              ≡ (if name_eq name request.name then reduced l else binding s.procs name)))

-- In a valid table a request to unlink a proper name succeeds exactly if the name is linked to the
-- port of the caller. Then the name has one link less, or none if that was its last, and no other
-- name's link changes. Otherwise no entry changes, and the error is ENOENT if the name is not
-- linked and EINVAL if it is.
pub do_name_unlink_refines :
    (s : Names) (request : Request)
    → IsValid s
    → IsName request.name
    → UnlinksName s request (do_name_unlink s request)
do_name_unlink_refines s request v proper = elim (do_name_unlink-cases s request v proper) [
  | inl (absent, e) ↦ inl (binding-Unused s.procs request.name absent, e)
  | inr (inl (i, f, other, e)) ↦ inr (
      inl (
        link_of (s.procs i),
        binding_held s.procs request.name i f,
        (λ same. ground (arith, ==ℤ_iff (s.procs i).port_nr (pos request.mailbox_port))),
        e,
      ))
  | inr (inr (i, f, mine, e)) ↦ inr (
      inr (
        link_of (s.procs i),
        binding_held s.procs request.name i f,
        (==ℤ_iff (s.procs i).port_nr (pos request.mailbox_port)).0 mine,
        rw e refl,
        (λ name ne. rw e (binding-unlinked s request v proper i f name ne)),
      ))
]

-- Unlinking keeps the invariant.
pub do_name_unlink-IsValid :
    (s : Names) (request : Request)
    → IsValid s
    → IsName request.name
    → IsValid (do_name_unlink s request).1
do_name_unlink-IsValid s request v proper = elim (do_name_unlink-cases s request v proper) [
  | inl (_, e) ↦ rw e (recounted s v)
  | inr (inl (_, _, _, e)) ↦ rw e (recounted s v)
  | inr (inr (i, f, mine, e)) ↦ rw e (unlinked_IsValid s request v proper i f)
]
