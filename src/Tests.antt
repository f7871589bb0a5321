-- ===== src/Tests.antt =====
-- Runs of the model on concrete values, and the theorems at inputs that meet their hypotheses.
mod Values
mod Encoding
mod Framing
mod Lobs
mod Prolog
mod Fields
mod Names
mod Sqlscript
mod Unicode
mod Options
mod Driver
mod Dates
mod Decimals
mod Parameters
mod Session
