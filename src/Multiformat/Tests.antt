-- ===== src/Multiformat/Tests.antt =====
-- The theorems on src/multiformat.rs at concrete payloads.
