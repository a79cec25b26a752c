-- ===== src/Tests.antt =====
-- Runs of the model on concrete inputs, and the theorems at inputs that meet their hypotheses.
mod Frames
mod Loops
mod Opening
mod Serving
mod Texts
mod Tls
mod Uring
mod Values
mod Windows
