-- ===== src/NameServer.antt =====
-- src/sys/pm/name/main.c: the server that links names to nodes, with the check of a name of
-- include/nanvix/servers/name.h. A name is the list of its characters, without the closing NUL.
-- `node_is_valid` is the kernel's, and a parameter. Console output is left out; the
-- kernel's answers on the ports of a client are a field of the request.
mod Tests
pub mod Accept
pub mod Valid
pub mod Cases
pub mod Link
pub mod Unlink
pub mod Server
use multikernel.Common.{
  ◌-◌, ℕ, ◌+◌, ◌≡◌, ◌%◌, ◌^◌, Bool, true, false, ◌&&◌, not, Option, none, some, List, [], ◌∷◌, ℤ,
  pos, negsuc, is_neg, ◌==ℤ◌, ◌+ℤ◌, ◌-ℤ◌, leb_ℤ, leb, ◌==◌, if◌then◌else◌, update, find_entry,
  length, Result, ok, err, Status, Channels, Errno, einval, enoent, enametoolong, enosys,
}

abbrev pub Name : Type 0
Name = List ℕ

-- `!ustrcmp(a, b)`
abbrev pub name_eq : Name → Name → Bool
name_eq [] [] = true
name_eq [] (y ∷ ys) = false
name_eq (x ∷ xs) [] = false
name_eq (x ∷ xs) (y ∷ ys) = x == y && name_eq xs ys

-- NANVIX_PROC_NAME_MAX and NANVIX_PNAME_MAX
abbrev pub proc_name_max : ℕ
proc_name_max = 64

abbrev pub pname_max : ℕ
pname_max = 256

-- An entry of `procs`.
pub record Proc : Type 0 where
  pub nodenum : ℤ
  pub port_nr : ℤ
  pub name : Name
  pub timestamp : ℕ
  pub refcount : ℤ

-- `nr_registration`, `procs` and `stats`
pub record Names : Type 0 where
  pub nr_registration : ℤ
  pub procs : ℕ → Proc
  pub nlinks : ℕ
  pub nunlinks : ℕ
  pub nlookups : ℕ

-- `struct name_message`, as the handlers read it. Its name is a field of the message, so the
-- pointer to it is never null.
pub record Request : Type 0 where
  pub source : ℕ
  pub mailbox_port : ℕ
  pub opcode : ℕ
  pub name : Name
  pub timestamp : ℕ
  pub channels : Channels

-- `nanvix_name_is_valid`; `none` is a null pointer.
abbrev pub nanvix_name_is_valid : Option Name → Status
nanvix_name_is_valid none = err einval
nanvix_name_is_valid (some name) =
    if name_eq name []
    then err einval
    else if leb (proc_name_max - 1) (length name)
    then err enametoolong
    else ok tt

abbrev pub is_named : Name → Proc → Bool
is_named name p = name_eq name p.name

abbrev pub is_free : Proc → Bool
is_free p = is_neg p.nodenum

-- What `do_name_init` leaves in the entries, on node `self` and thread `thread`. The names are
-- static data, which starts as zeros.
pub do_name_init : ℤ → ℤ → Names
do_name_init self thread = record {
  nr_registration = pos 0;
  procs =
      update (λ i. blank) 0
        (record {
          nodenum = self;
          port_nr = thread;
          name = b'/' ∷ b'i' ∷ b'o' ∷ b'0' ∷ [];
          timestamp = 0;
          refcount = pos 1;
        });
  nlinks = 0;
  nunlinks = 0;
  nlookups = 0;
}
  where
    blank : Proc
    blank = record {
      nodenum = negsuc 0;
      port_nr = negsuc 0;
      name = [];
      timestamp = 0;
      refcount = pos 0;
    }

-- The node number of the response, which is -1 until a name is found.
pub found_node : Names → Option ℕ → Status × ℤ
found_node s none = (err enoent, negsuc 0)
found_node s (some i) = (ok tt, (s.procs i).nodenum)

pub do_name_lookup : Names → Request → Status × ℤ × Names
unfolding found_node
do_name_lookup s request =
    let s' = record s { nlookups = s.nlookups + 1 } in
    elim (nanvix_name_is_valid (some request.name)) [
      | err e ↦ (err e, negsuc 0, s')
      | ok u ↦
          let (r, node) = found_node s (find_entry (is_named request.name) s.procs pname_max) in
          (r, node, s')
    ]

-- `connect:` of `do_name_link`
abbrev pub count_link : Names → ℕ → Names
count_link s i = record s {
  procs = update s.procs i (record (s.procs i) { refcount = (s.procs i).refcount +ℤ pos 1 });
  nr_registration = s.nr_registration +ℤ pos 1;
}

-- `found:` of `do_name_link`
abbrev pub fill : Names → Request → ℕ → Names
fill s request i = record s {
  procs = update s.procs i (record (s.procs i) {
    name = request.name;
    nodenum = pos request.source;
    port_nr = pos request.mailbox_port;
  });
}

-- `(procs[i].nodenum == nodenum) && (procs[i].port_nr == remote_port)`
abbrev pub is_link_of : Request → Proc → Bool
is_link_of request p = p.nodenum ==ℤ pos request.source && p.port_nr ==ℤ pos request.mailbox_port

pub link_new : Names → Request → Option ℕ → Status × Names
link_new s request none = (err einval, s)
link_new s request (some i) = (ok tt, count_link (fill s request i) i)

pub link_name : Names → Request → Option ℕ → Status × Names
link_name s request (some i) =
    if is_link_of request (s.procs i) then (ok tt, count_link s i) else (err einval, s)
link_name s request none = link_new s request (find_entry is_free s.procs pname_max)

-- The handlers change `stats.nlinks` first; `do_name_unlink` counts there too.
abbrev pub count_request : Names → Names
count_request s = record s { nlinks = s.nlinks + 1 }

pub unlinked : Proc → Proc
unlinked p =
    if p.refcount -ℤ pos 1 ==ℤ pos 0
    then record p {
      name = [];
      nodenum = negsuc 0;
      port_nr = negsuc 0;
      refcount = p.refcount -ℤ pos 1;
    }
    else record p { refcount = p.refcount -ℤ pos 1 }

pub unlink_at : Names → Request → Option ℕ → Status × Names
unlink_at s request none = (err enoent, s)
unlink_at s request (some i) =
    if not ((s.procs i).port_nr ==ℤ pos request.mailbox_port) then (err einval, s) else (
      ok tt,
      record s {
        nr_registration = s.nr_registration -ℤ pos 1;
        procs = update s.procs i (unlinked (s.procs i));
      },
    )

pub do_name_unlink : Names → Request → Status × Names
unfolding unlink_at unlinked
do_name_unlink s request = elim (nanvix_name_is_valid (some request.name)) [
  | err e ↦ (err e, count_request s)
  | ok u ↦
      unlink_at (count_request s) request
        (find_entry (λ p. not (is_free p) && is_named request.name p) s.procs pname_max)
]

pub beat_at : Names → Request → Option ℕ → Status × Names
beat_at s request none = (err einval, s)
beat_at s request (some i) = (
  ok tt,
  record s { procs = update s.procs i (record (s.procs i) { timestamp = request.timestamp }) },
)

module _ (node_is_valid : ℤ → Bool) where
  pub do_name_link : Names → Request → Status × Names
  unfolding link_name link_new
  do_name_link s request =
      let s' = count_request s in
      if not (node_is_valid (pos request.source))
      then (err einval, s')
      else elim (nanvix_name_is_valid (some request.name)) [
        | err e ↦ (err e, s')
        | ok u ↦
            if leb_ℤ (pos pname_max) s.nr_registration
            then (err einval, s')
            else link_name s' request (find_entry (is_named request.name) s.procs pname_max)
      ]

  pub do_name_heartbeat : Names → Request → Status × Names
  unfolding beat_at
  do_name_heartbeat s request =
      if not (node_is_valid (pos request.source))
      then (err einval, s)
      else beat_at s request (find_entry (λ p. p.nodenum ==ℤ pos request.source) s.procs pname_max)

-- NAME_EXIT, NAME_LOOKUP, NAME_LINK, NAME_UNLINK and NAME_ALIVE
abbrev pub name_exit : ℕ
name_exit = 0

abbrev pub name_lookup : ℕ
name_lookup = 1

abbrev pub name_link : ℕ
name_link = 2

abbrev pub name_unlink : ℕ
name_unlink = 3

abbrev pub name_alive : ℕ
name_alive = 5

-- What a round of the server's loop leaves: the state, the status of the reply if one is sent, with
-- the node number of a lookup's, and whether the loop ends.
pub record Round : Type 0 where
  pub state : Names
  pub reply : Option (Status × Option ℤ)
  pub shutdown : Bool

abbrev pub answered : Status × Names → Round
answered (r, s) = record { state = s; reply = some (r, none); shutdown = false }

abbrev pub lookup_answer : Status × ℤ × Names → Round
lookup_answer (r, node, s) = record { state = s; reply = some (r, some node); shutdown = false }

-- The end of a round that replies, which asserts that the client's mailbox takes the reply
abbrev pub replied : Request → Round → Option Round
replied request out = if request.channels.outbox then some out else none

-- `uassert((ret = do_name_heartbeat(&request)) == 0)`
abbrev pub beaten : Status × Names → Option Round
beaten (ok u, s) = some (record { state = s; reply = none; shutdown = false })
beaten (err e, s) = none

-- One round: the `switch` of `do_name_server`. `none` is a stop by a failed assertion.
pub name_round : (ℤ → Bool) → Names → Request → Option Round
name_round node_is_valid s request =
    if request.opcode == name_lookup
    then replied request (lookup_answer (do_name_lookup s request))
    else if request.opcode == name_link
    then replied request (answered (do_name_link node_is_valid s request))
    else if request.opcode == name_unlink
    then replied request
        (answered (do_name_unlink (record s { nunlinks = s.nunlinks + 1 }) request))
    else if request.opcode == name_alive
    then beaten (do_name_heartbeat node_is_valid s request)
    else some (record { state = s; reply = none; shutdown = request.opcode == name_exit })
