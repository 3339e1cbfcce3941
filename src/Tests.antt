-- ===== src/Tests.antt =====
-- Runs of the definitions at small inputs, and for each result with hypotheses a case in which they
-- hold. The children follow the program's parts.
mod Measure
mod Nfs
mod NarProxy
mod Dns
mod Health
mod Direct
mod Transcode
mod Report
mod Search
mod Probe
mod Program
mod Orders
mod Print
mod Select
mod Start
mod Server
mod Unplayed
mod Command
