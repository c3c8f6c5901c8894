-- ===== src/Tests.antt =====
-- Concrete inputs for the theorems, and a small machine that satisfies what they rely on.
mod Machine
mod Tracing
mod Reading
mod Serving
mod Looping
mod Filling
mod Rounds
mod Mapping
mod Willing
mod Granted
mod Carrying
mod Saving
mod Taking
mod Rewinding
mod Redirecting
mod Refusing
