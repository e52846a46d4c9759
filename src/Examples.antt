-- ===== src/Examples.antt =====
-- The theorems at concrete inputs, and runs of the model.
mod Echoes
mod Pingers
mod Rounds
mod Masters
mod Unix
mod Multicasts
mod Data
mod Connections
mod Datagrams
mod Exchange
mod Connecting
mod Handlers
mod Loops
mod Lists
mod Accounting
mod Sockets
