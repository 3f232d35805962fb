-- ===== src/Common/Kernel.antt =====
-- What the kernel answers to the calls that a server makes with the source and the ports of a
-- request. The kernel is not part of the repository, so the answers come with the request.
use mathlib.Core.Bool.{Bool, true}
use mathlib.Core.Path.{◌≡◌}

-- Whether the calls succeed: `kmailbox_open`, `kmailbox_write` and `kmailbox_close` on the client's
-- mailbox; `kportal_open`, `kportal_write` and `kportal_close` on its portal; and `kportal_allow`
-- and `kportal_read` from it
pub record Channels : Type 0 where
  pub outbox : Bool
  pub outportal : Bool
  pub inportal : Bool

abbrev pub IsOpen : Channels → Type 0
IsOpen c = (c.outbox ≡ true) × (c.outportal ≡ true) × (c.inportal ≡ true)
