-- ===== src/Tests.antt =====
-- Instances of the parameters, and the runs of the program at concrete states.
mod Primitives
mod Server
mod Browser
mod Web
mod Pages
mod Runs
mod Format
mod Passwords
mod Sessions
mod Vault
mod Backups
mod Mails
mod Routes
