-- ===== src/Tests.antt =====
-- Runs of the operations on concrete inputs.
mod Streams
mod Transports
mod Challenges
mod Resources
mod Proxies
mod Commands
mod Support
mod Codecs
mod Discoveries
mod Flows
mod Relays
mod Worlds
mod Starts
