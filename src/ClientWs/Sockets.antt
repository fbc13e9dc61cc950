-- ===== src/ClientWs/Sockets.antt =====
-- packages/orchestrator/src/client-ws.ts: the listener on "upgrade", which lets a socket in.
use claude_agent_runner.Common.{ℕ, Option, none, some}
use claude_agent_runner.Tenants.{Tenant, TenantManager}
use claude_agent_runner.Tenants.Access.{authenticate_ws}

-- `upgrade`: a path of the main socket, of a terminal, or another.
pub data UpgradePath : Type 0 where
  client_path other_path : UpgradePath
  pty_path : ℕ → UpgradePath

pub data Upgrade : Type 0 where
  client_accepted : Option ℕ → Upgrade
  pty_accepted : ℕ → Option ℕ → Upgrade
  unauthorized destroyed : Upgrade

abbrev pub accepted : UpgradePath → Option ℕ → Upgrade
accepted client_path tenant = client_accepted tenant
accepted (pty_path s) tenant = pty_accepted s tenant
accepted other_path tenant = destroyed

abbrev pub accepted_as : UpgradePath → Option Tenant → Upgrade
accepted_as path none = unauthorized
accepted_as path (some t) = accepted path (some t.id)

-- Without a tenant manager there is no check of the key.
pub on_upgrade :
    (ℕ → ℕ) → UpgradePath → Option ℕ → Option TenantManager → Upgrade × Option TenantManager
on_upgrade hash other_path key tenants = (destroyed, tenants)
on_upgrade hash path key none = (accepted path none, none)
on_upgrade hash path key (some m) =
    let (t, m') = authenticate_ws hash key m in (accepted_as path t, some m')
