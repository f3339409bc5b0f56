-- ===== src/Tests.antt =====
-- Runs of the model on small inputs, and the theorems applied where their hypotheses hold.
mod Floats
mod Control
mod Services
mod Scaling
mod Routing
mod Matrix
mod Traces
mod Loads
mod Replay
mod Proxy
mod Cells
mod Campaign
