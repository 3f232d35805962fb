-- ===== src/NameServer/Server.antt =====
-- The rounds of the name server: which requests stop it, and that all others keep its table valid.
use multikernel.Common.{
  ℕ, ◌+◌, ◌<◌, ◌≡◌, refl, sym, ◌⊎◌, inl, inr, true, false, Bool, Option, none, some, ℤ, pos, ◌==ℤ◌,
  ==ℤ_iff, ◌-ℤ◌, arith, ◌==◌, ==_iff, Bool-cases, update, First, search-cases, sum_below, ok, err,
  Errno, einval,
}
use multikernel.NameServer.{
  Names, Request, Round, is_free, pname_max, count_request, nanvix_name_is_valid, do_name_init,
  do_name_unlink, do_name_lookup, do_name_heartbeat, replied, beaten, name_round, name_lookup,
  name_link, name_unlink, name_alive,
}
use multikernel.NameServer.Valid.{IsValid, write-IsValid, links}
use multikernel.NameServer.Link.{Status-cases, recounted, do_name_link-IsValid}
use multikernel.NameServer.Unlink.{do_name_unlink-IsValid}

unlink_improper :
    (s : Names) (request : Request) (e : Errno)
    → nanvix_name_is_valid (some request.name) ≡ err e
    → do_name_unlink s request ≡ (err e, count_request s)
unfolding do_name_unlink
unlink_improper s request e h = rw (h, do_name_unlink)

unlink-IsValid : (s : Names) (request : Request) → IsValid s → IsValid (do_name_unlink s request).1
unlink-IsValid s request v = elim (Status-cases (nanvix_name_is_valid (some request.name))) [
  | inl proper ↦ do_name_unlink-IsValid s request v proper
  | inr (e, bad) ↦ rw (unlink_improper s request e bad) (recounted s v)
]

lookup-IsValid : (s : Names) (request : Request) → IsValid s → IsValid (do_name_lookup s request).2
unfolding do_name_lookup
lookup-IsValid s request v = elim (Status-cases (nanvix_name_is_valid (some request.name))) [
  | inl proper ↦
      rw (proper, do_name_lookup)
        (record { entries = v.entries; distinct = v.distinct; total = v.total })
  | inr (e, bad) ↦
      rw (bad, do_name_lookup)
        (record { entries = v.entries; distinct = v.distinct; total = v.total })
]

-- A heartbeat changes a time stamp, which the invariant does not read.
beat-IsValid :
    (s : Names) (i time : ℕ)
    → IsValid s
    → i < pname_max
    → is_free (s.procs i) ≡ false
    → IsValid (record s { procs = update s.procs i (record (s.procs i) { timestamp = time }) })
beat-IsValid s i time v lt live =
    write-IsValid s i (record (s.procs i) { timestamp = time }) s.nr_registration v lt
      (v.entries i lt) (λ j hj ne _ same. ne (sym (v.distinct i j lt hj live same))) refl

-- The first entry of a node.
abbrev pub HasNode : Names → Request → Type 0
HasNode s request = (i : ℕ) × (i < pname_max) × ((s.procs i).nodenum ≡ pos request.source)

module _ (node_is_valid : ℤ → Bool) where
  heartbeat-cases :
      (s : Names) (request : Request)
      → ((HasNode s request → node_is_valid (pos request.source) ≡ false)
          × ((do_name_heartbeat node_is_valid s request) ≡ (err einval, s)))
        ⊎ ((i : ℕ) × (node_is_valid (pos request.source) ≡ true)
            × First (λ j. (s.procs j).nodenum ==ℤ pos request.source) pname_max i
            × (do_name_heartbeat node_is_valid s request ≡ (
              ok tt,
              record s {
                procs = update s.procs i (record (s.procs i) { timestamp = request.timestamp });
              },
            )))
  unfolding do_name_heartbeat
  heartbeat-cases s request = elim (Bool-cases (node_is_valid (pos request.source))) [
    | inr bad ↦ inl ((λ _. bad), rw bad)
    | inl good ↦ elim (search-cases (λ j. (s.procs j).nodenum ==ℤ pos request.source) pname_max) [
      | inl (e, absent) ↦ inl (
        (λ (i, lt, h).
            ground (arith, absent i lt, ==ℤ_iff (s.procs i).nodenum (pos request.source))),
        rw (good, e),
      )
      | inr (i, e, f) ↦ inr (i, good, f, rw (good, e))
    ]
  ]

  abbrev pub Serves : Option Round → Type 0
  Serves none = ⊥
  Serves (some out) = IsValid out.state

  -- The opcodes of the requests that are answered
  abbrev pub IsReplied : ℕ → Type 0
  IsReplied op = (op ≡ name_lookup) ⊎ (op ≡ name_link) ⊎ (op ≡ name_unlink)

  -- The requests that stop the server: a heartbeat of a node that is not valid or has no name, and a
  -- request whose reply can not be sent
  abbrev pub Stops : Names → Request → Type 0
  Stops s request =
      ((request.opcode ≡ name_alive)
        × (HasNode s request → node_is_valid (pos request.source) ≡ false))
      ⊎ (IsReplied request.opcode × (request.channels.outbox ≡ false))

  abbrev pub Outcome : Names → Request → Option Round → Type 0
  Outcome s request o = (¬ Stops s request × Serves o) ⊎ (Stops s request × (o ≡ none))

  replied-Outcome :
      (s : Names) (request : Request) (out : Round)
      → IsReplied request.opcode
      → IsValid out.state
      → Outcome s request (replied request out)
  replied-Outcome s request out answers v = elim (Bool-cases request.channels.outbox) [
    | inl fine ↦ inl (no_stop fine answers, rw fine v)
    | inr lost ↦ inr (inr (answers, lost), rw lost refl)
  ]
    where
      no_stop : request.channels.outbox ≡ true → IsReplied request.opcode → Stops s request → ⊥
      no_stop fine (inl e) (inl (a, _)) = omega (arith, e, a)
      no_stop fine (inr (inl e)) (inl (a, _)) = omega (arith, e, a)
      no_stop fine (inr (inr e)) (inl (a, _)) = omega (arith, e, a)
      no_stop fine answers (inr (_, lost)) = cc

  not_answered : (op : ℕ) → op ≡ name_alive → IsReplied op → ⊥
  not_answered op a (inl e) = omega arith
  not_answered op a (inr (inl e)) = omega arith
  not_answered op a (inr (inr e)) = omega arith

  beaten-Outcome :
      (s : Names) (request : Request)
      → IsValid s
      → request.opcode ≡ name_alive
      → Outcome s request (beaten (do_name_heartbeat node_is_valid s request))
  beaten-Outcome s request v alive = elim (heartbeat-cases s request) [
    | inl (h, e) ↦ inr (inl (alive, h), rw e refl)
    | inr (i, good, f, e) ↦ inl (
      known i good f.within ((==ℤ_iff (s.procs i).nodenum (pos request.source)).0 f.passes),
      rw e (
          beat-IsValid s i request.timestamp v f.within
            (ground (arith, ==ℤ_iff (s.procs i).nodenum (pos request.source), f.passes))),
    )
  ]
    where
      known :
          (i : ℕ)
          → node_is_valid (pos request.source) ≡ true
          → i < pname_max
          → (s.procs i).nodenum ≡ pos request.source
          → Stops s request
          → ⊥
      known i good lt same (inl (_, h)) = absurd (clash good (h (i, lt, same)))
        where
          clash : {b : Bool} → b ≡ true → b ≡ false → ⊥
          clash a b = cc
      known i good lt same (inr (answers, _)) = not_answered request.opcode alive answers

  -- In a valid table the server is stopped by a failed assertion exactly by a heartbeat of a node that
  -- is not valid or has no name, and by a request to look up, to link or to unlink a name whose reply
  -- can not be sent to the client's mailbox; every other request leaves a valid table.
  pub name_round-Serves :
      (s : Names) (request : Request)
      → IsValid s
      → Outcome s request (name_round node_is_valid s request)
  unfolding name_round
  name_round-Serves s request v = elim (Bool-cases (request.opcode == name_lookup)) [
    | inl l ↦ rw l (
        replied-Outcome s request _ (inl ((==_iff request.opcode name_lookup).0 l))
          (lookup-IsValid s request v))
    | inr nl ↦ elim (Bool-cases (request.opcode == name_link)) [
      | inl k ↦
          rw (nl, k)
            (replied-Outcome s request _ (inr (inl ((==_iff request.opcode name_link).0 k)))
              (do_name_link-IsValid node_is_valid s request v))
      | inr nk ↦ elim (Bool-cases (request.opcode == name_unlink)) [
        | inl u ↦
            rw (nl, nk, u)
              (replied-Outcome s request _ (inr (inr ((==_iff request.opcode name_unlink).0 u))) (
                unlink-IsValid (record s { nunlinks = s.nunlinks + 1 }) request
                  (record { entries = v.entries; distinct = v.distinct; total = v.total })))
        | inr nu ↦ elim (Bool-cases (request.opcode == name_alive)) [
          | inl a ↦
              rw (nl, nk, nu, a)
                (beaten-Outcome s request v ((==_iff request.opcode name_alive).0 a))
          | inr na ↦ rw (nl, nk, nu, na) (inl (goes_on nl nk nu na, v))
        ]
      ]
    ]
  ]
    where
      goes_on :
          (request.opcode == name_lookup) ≡ false
          → (request.opcode == name_link) ≡ false
          → (request.opcode == name_unlink) ≡ false
          → (request.opcode == name_alive) ≡ false
          → Stops s request
          → ⊥
      goes_on nl nk nu na (inl (a, _)) = ground (arith, na, a)
      goes_on nl nk nu na (inr (inl e, _)) = ground (arith, nl, e)
      goes_on nl nk nu na (inr (inr (inl e), _)) = ground (arith, nk, e)
      goes_on nl nk nu na (inr (inr (inr e), _)) = ground (arith, nu, e)

total_of_init :
    (self : ℕ) (thread : ℤ)
    → (do_name_init (pos self) thread).nr_registration
      ≡ pos (links (do_name_init (pos self) thread).procs) -ℤ pos 1
unfolding do_name_init sum_below
total_of_init self thread = refl

-- What the server starts with is valid.
pub do_name_init-IsValid : (self : ℕ) (thread : ℤ) → IsValid (do_name_init (pos self) thread)
unfolding do_name_init
do_name_init-IsValid self thread = record {
  entries = λ i lt. elim (Bool-cases (0 == i)) [
    | inl e ↦ rw e (inr (refl, (λ h. cc), omega arith))
    | inr ne ↦ rw ne (inl (refl, refl, refl))
  ];
  distinct = λ i j hi hj live same. ground arith;
  total = total_of_init self thread;
}
