-- ===== src/Tests.antt =====
-- Runs of the model on concrete inputs, and its theorems at concrete inputs.
mod Parser
mod Certificates
mod Texts
mod Gelf
mod Encrypted
mod Weed
mod Layout
mod Graylog
mod Schedule
mod Task
mod Auth
mod Upload
mod GlobalConfig
mod ClientReport
