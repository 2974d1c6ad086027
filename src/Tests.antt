-- ===== src/Tests.antt =====
-- Concrete runs of the code, at which the theorems are applied.
mod Values
mod Receive
mod Refused
mod Reader
mod Contents
mod Server
mod Process
mod Texts
mod Diagnostics
mod Application
mod Sessions
mod Start
mod Unit
