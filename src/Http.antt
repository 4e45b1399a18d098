-- ===== src/Http.antt =====
-- include/http_client.hpp and src/internal/http_client.cpp: decimal headers, the rate-limit quota,
-- the retry loop and the classification of responses. What cpr does with a request is the hooks
-- `get` and `post`, which the code itself keeps in a record.
pub mod Number
pub mod Budget
pub mod Retry
pub mod Transport
pub mod Response
mod Tests
