-- ===== src/NameServer/Tests.antt =====
-- Tests of the name server: node 0 has started, and the process at its port 7 links "a".
use multikernel.Common.{
  Channels, search_array, ok, arith, ◌↔◌, ◌≡◌, refl, ◌∷◌, [], ℤ, pos, Bool, true,
}
use multikernel.NameServer.Accept.{MayLink, IsGranted, do_name_link_accepts}
use multikernel.NameServer.Cases.{binding}
use multikernel.NameServer.{
  Names, Request, do_name_init, do_name_link, do_name_unlink, name_round, name_link,
}
use multikernel.NameServer.Valid.{IsValid}
use multikernel.NameServer.Link.{LinksName, do_name_link_refines, do_name_link-IsValid}
use multikernel.NameServer.Unlink.{UnlinksName, do_name_unlink_refines}
use multikernel.NameServer.Server.{Outcome, name_round-Serves, do_name_init-IsValid}

abbrev any_node : ℤ → Bool
any_node n = true

abbrev opens : Channels
opens = record { outbox = true; outportal = true; inportal = true }

abbrev ask : Request
ask = record {
  source = 0;
  mailbox_port = 7;
  opcode = name_link;
  name = 97 ∷ [];
  timestamp = 0;
  channels = opens;
}

abbrev started : Names
started = do_name_init (pos 0) (pos 0)

started-IsValid : IsValid started
started-IsValid = do_name_init-IsValid 0 (pos 0)

abbrev linked : Names
linked = (do_name_link any_node started ask).1

linked-IsValid : IsValid linked
linked-IsValid = do_name_link-IsValid any_node started ask started-IsValid

do_name_link_refines_example : LinksName started ask (do_name_link any_node started ask)
do_name_link_refines_example = do_name_link_refines any_node started ask started-IsValid

do_name_unlink_refines_example : UnlinksName linked ask (do_name_unlink linked ask)
do_name_unlink_refines_example = do_name_unlink_refines linked ask linked-IsValid refl

name_round-Serves_example : Outcome any_node started ask (name_round any_node started ask)
name_round-Serves_example = name_round-Serves any_node started ask started-IsValid

started_link : MayLink started ask (binding started.procs ask.name)
unfolding do_name_init binding search_array
started_link = (1, omega arith, refl)

do_name_link_accepts_example :
    ((do_name_link any_node started ask).0 ≡ ok tt) ↔ IsGranted any_node started ask
do_name_link_accepts_example = do_name_link_accepts any_node started ask

-- The request is one that is granted.
started-IsGranted : IsGranted any_node started ask
unfolding do_name_init
started-IsGranted = (refl, refl, refl, started_link)
