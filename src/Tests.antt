-- ===== src/Tests.antt =====
-- Runs of the model on small inputs, and the theorems at such inputs.
mod Polls
mod Schedule
mod Lags
mod Server
mod Decimals
mod States
mod Listings
mod Connections
mod Alarms
mod Sets
mod Queues
mod Cascades
mod Pendings
mod Timetables
mod Claims
mod Requests
mod Files
mod Ingestion
mod Headways
