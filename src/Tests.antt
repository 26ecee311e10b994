-- ===== src/Tests.antt =====
-- The properties at concrete inputs.
mod Chunks
mod Pipeline
mod Search
mod Answers
mod Files
mod Uploads
mod Limits
mod Tokens
mod Access
mod Requests
mod Reading
mod Lives
mod Formats
mod Rollup
mod Evaluation
mod Fakes
