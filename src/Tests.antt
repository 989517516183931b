-- ===== src/Tests.antt =====
-- Concrete runs of the model, and the theorems at concrete inputs.
mod Table
mod Filter
mod Protocol
mod Client
mod Numbers
mod Files
mod Engine
mod Requests
mod Log
mod Merge
