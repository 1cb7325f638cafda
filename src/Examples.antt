-- ===== src/Examples.antt =====
-- Runs of the model on concrete inputs.
mod Database
mod Recordings
mod Stored
mod Connections
mod Transfers
mod Played
mod Requests
mod Serving
mod Files
mod Copying
