-- ===== src/Examples.antt =====
-- Concrete runs: each theorem of the development that has hypotheses, applied to an input of its own.
mod Codecs
mod Host
mod Service
mod Session
mod Reverse
mod Manager
mod Handler
mod Hdc
mod Transfer
mod Answers
mod Takeover
mod Control
