-- ===== src/Connection/Tests.antt =====
-- Tests of the table of connections, on one of four entries.
use multikernel.Common.{refl, pos}
use multikernel.Connection.{Table, connections_max, connect, disconnect, connections_setup}
use multikernel.Connection.Valid.{IsValid, connect-IsValid, connections_setup-IsValid}
use multikernel.Connection.Refine.{Connects, Disconnects, connect_refines, disconnect_refines}

-- A client at node 3, port 5
abbrev one_client : Table
one_client = (connect 1 connections_setup (pos 3) (pos 5)).1

one_client-IsValid : IsValid (connections_max 1) one_client
one_client-IsValid =
    connect-IsValid 1 connections_setup (pos 3) (pos 5)
      (connections_setup-IsValid (connections_max 1))

connect_refines_example :
    Connects 1 one_client (pos 3) (pos 5) (connect 1 one_client (pos 3) (pos 5))
connect_refines_example = connect_refines 1 one_client (pos 3) (pos 5) refl refl

disconnect_refines_example :
    Disconnects 1 one_client (pos 3) (pos 5) (disconnect 1 one_client (pos 3) (pos 5))
disconnect_refines_example =
    disconnect_refines 1 one_client (pos 3) (pos 5) refl refl one_client-IsValid
