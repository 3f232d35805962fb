-- ===== src/NameServer/Accept.antt =====
-- Which requests to link a name are granted.
use multikernel.Common.{
  ℕ, ◌<◌, ◌≡◌, refl, ◌↔◌, ==ℤ_iff, Bool-cases, inl, inr, true, false, Bool, Option, none, some, ℤ,
  pos, leb_ℤ, arith, search-cases, ok, err, Status, Errno,
}
use multikernel.NameServer.{
  Names, Proc, Request, is_free, is_named, is_link_of, pname_max, nanvix_name_is_valid,
  do_name_link,
}
use multikernel.NameServer.Link.{IsName, Status-cases}
use multikernel.NameServer.Cases.{Link, binding, binding_held, binding-Unused}

-- The name is linked to the caller's node and port; or to none, and an entry is free.
abbrev pub MayLink : Names → Request → Option Link → Type 0
MayLink s request none = (i : ℕ) × (i < pname_max) × (is_free (s.procs i) ≡ true)
MayLink s request (some l) = (l.node ≡ pos request.source) × (l.port ≡ pos request.mailbox_port)

module _ (node_is_valid : ℤ → Bool) where
  abbrev pub IsGranted : Names → Request → Type 0
  IsGranted s request =
      (node_is_valid (pos request.source) ≡ true)
      × IsName request.name
      × (leb_ℤ (pos pname_max) s.nr_registration ≡ false)
      × MayLink s request (binding s.procs request.name)

  granted :
      (s : Names) (request : Request)
      → IsGranted s request
      → (do_name_link node_is_valid s request).0 ≡ ok tt
  unfolding do_name_link
  granted s request (good, proper, room, may) =
      elim (search-cases (λ j. is_named request.name (s.procs j)) pname_max) [
        | inr (i, e, f) ↦
            let own = rw (binding_held s.procs request.name i f) at may in
            rw (good, proper, room, e) (rw (is_own (s.procs i) request own))
        | inl (e, absent) ↦
            let (k, lt, free) = rw (binding-Unused s.procs request.name absent) at may in
            elim (search-cases (λ j. is_free (s.procs j)) pname_max) [
              | inr (i, e', f) ↦ rw (good, proper, room, e, e')
              | inl (e', taken) ↦ absurd (ground (arith, taken k lt, free))
            ]
      ]
    where
      is_own :
          (p : Proc) (request : Request)
          → (p.nodenum ≡ pos request.source) × (p.port_nr ≡ pos request.mailbox_port)
          → is_link_of request p ≡ true
      is_own p request (hn, hp) = rw (hn, hp) (ground arith)

  do_name_link-IsGranted :
      (s : Names) (request : Request)
      → (do_name_link node_is_valid s request).0 ≡ ok tt
      → IsGranted s request
  unfolding do_name_link
  do_name_link-IsGranted s request h = elim (Bool-cases (node_is_valid (pos request.source))) [
    | inr bad ↦ absurd (refused (rw bad at h) refl)
    | inl good ↦ elim (Status-cases (nanvix_name_is_valid (some request.name))) [
      | inr (e, bad) ↦ absurd (refused (rw (good, bad) at h) refl)
      | inl proper ↦ elim (Bool-cases (leb_ℤ (pos pname_max) s.nr_registration)) [
        | inl full ↦ absurd (refused (rw (good, proper, full) at h) refl)
        | inr room ↦ (
          good,
          proper,
          room,
          elim (search-cases (λ j. is_named request.name (s.procs j)) pname_max) [
            | inr (i, e, f) ↦ elim (Bool-cases (is_link_of request (s.procs i))) [
              | inl mine ↦
                  rw (binding_held s.procs request.name i f) (own_link (s.procs i) request mine)
              | inr other ↦ absurd (refused (rw other at (rw (good, proper, room, e) at h)) refl)
            ]
            | inl (e, absent) ↦ elim (search-cases (λ j. is_free (s.procs j)) pname_max) [
              | inr (i, e', f) ↦
                  rw (binding-Unused s.procs request.name absent) (i, f.within, f.passes)
              | inl (e', taken) ↦ absurd (refused (rw (good, proper, room, e, e') at h) refl)
            ]
          ],
        )
      ]
    ]
  ]
    where
      refused : {r : Status} {e : Errno} → r ≡ ok tt → r ≡ err e → ⊥
      refused h h' = cc

      own_link :
          (p : Proc) (request : Request)
          → is_link_of request p ≡ true
          → (p.nodenum ≡ pos request.source) × (p.port_nr ≡ pos request.mailbox_port)
      own_link p request h = (
        ground (arith, h, ==ℤ_iff p.nodenum (pos request.source)),
        ground (arith, h, ==ℤ_iff p.port_nr (pos request.mailbox_port)),
      )

  -- A request to link a name is granted exactly if it is from a valid node, the name is proper, fewer
  -- links than the table has entries are registered, and the name is linked to the caller's node and
  -- port already, or to none and an entry is free.
  pub do_name_link_accepts :
      (s : Names) (request : Request)
      → ((do_name_link node_is_valid s request).0 ≡ ok tt) ↔ IsGranted s request
  do_name_link_accepts s request = (do_name_link-IsGranted s request, granted s request)
