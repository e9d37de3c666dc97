-- ===== src/Tests.antt =====
-- Runs of the definitions on concrete inputs, and each theorem at an input that meets its conditions.
mod Presence
mod Endings
mod Factories
mod Clocks
mod Keys
mod Sockets
mod Startup
mod Views
mod Databases
mod Logs
mod Responses
mod Queues
mod Jobs
mod Mails
mod Searches
mod Addresses
mod Models
