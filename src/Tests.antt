-- ===== src/Tests.antt =====
-- Concrete runs: of the wire tools, of the two gates, of the pins and of the transcripts.
mod Wire
mod Gate
mod Rerun
mod Plans
mod Deps
mod Proxy
mod Transcript
mod Fetching
mod Protocol
mod Pooling
