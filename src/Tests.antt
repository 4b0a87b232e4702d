-- ===== src/Tests.antt =====
-- Runs of the modelled code on small inputs.
mod Accounts
mod Agents
mod Reports
mod Sides
mod Exchanges
mod Frames
mod Gateways
mod Ids
mod Management
mod Paths
mod Services
mod Sockets
mod Socks
mod Codecs
mod Networks
mod Answers
mod Startups
