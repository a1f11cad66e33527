-- ===== src/Tests.antt =====
-- The theorems at work on concrete inputs.
mod Data
mod Metadata
mod Directories
mod Reader
mod Handles
mod Build
mod Serving
mod Trees
mod Walk
