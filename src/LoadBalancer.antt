-- ===== src/LoadBalancer.antt =====
-- The agent's client load balancer: pkg/agent/loadbalancer. The state, setServers, nextServer,
-- SetDefault and SetHealthCheck stand here, the dial loop and the health checks in children.
-- One goroutine runs at a time: what another one does between two steps of a dial is not modelled.
-- Connections that the code closes in the background are reported by the server's address.
mod Sorting
pub mod Servers
pub mod Updates
pub mod Invariant
pub mod Dial
pub mod Health
mod Tests
