-- ===== src/Tests.antt =====
-- Runs of the model on small inputs, and the theorems at inputs that meet their hypotheses.
mod Wire
mod SortedSets
mod Connections
mod Tables
mod Timers
mod Keys
mod Sockets
mod Trees
mod Threads
