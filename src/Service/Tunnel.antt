-- ===== src/Service/Tunnel.antt =====
-- src/service/proxy.rs: the task that copies between the two ends of an upgraded connection. `Tunnels` is
-- what it uses of hyper and tokio.
use rxh.Prelude.{ℕ, Option, none, some, ◌⊎◌, inl, inr}
use rxh.Http.{Web}

record Tunnels (web : Web) : Type 1 where
  pub Net : Type 0
  pub Upgraded : Type 0
  pub Error : Type 0
  -- `try_join!` of the two upgrades: `none` if one of them fails
  pub try_join : web.OnUpgrade → web.OnUpgrade → Net → Option (Upgraded × Upgraded) × Net
  -- The bytes that went each way.
  pub copy_bidirectional : Upgraded → Upgraded → Net → (Error ⊎ (ℕ × ℕ)) × Net

-- How the task ends, with what it prints.
data Ended (Error : Type 0) : Type 0 where
  wrote : (client_bytes server_bytes : ℕ) → Ended Error
  tunnel_error : Error → Ended Error
  unwrapped : Ended Error

module _ (web : Web) (tunnels : Tunnels web) where
  abbrev copied : (tunnels.Error ⊎ (ℕ × ℕ)) × tunnels.Net → Ended tunnels.Error × tunnels.Net
  copied (inr (client_bytes, server_bytes), net) = (wrote client_bytes server_bytes, net)
  copied (inl e, net) = (tunnel_error e, net)

  abbrev joined :
      Option (tunnels.Upgraded × tunnels.Upgraded) × tunnels.Net → Ended tunnels.Error × tunnels.Net
  joined (some (upgraded_client, upgraded_server), net) =
      copied (tunnels.copy_bidirectional upgraded_client upgraded_server net)
  joined (none, net) = (unwrapped, net)

  abbrev tunnel : (client server : web.OnUpgrade) → tunnels.Net → Ended tunnels.Error × tunnels.Net
  tunnel client server net = joined (tunnels.try_join client server net)
