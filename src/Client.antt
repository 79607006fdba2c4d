-- ===== src/Client.antt =====
-- internal/client/client.go: the HTTP client of the uapi REST API. `Error` has the API's errors
-- and their classification, `World` the requests and answers as an explicit history, `Retry` the
-- backoff, `Request` the request loop `do`, and `Objects` the calls that the provider makes.
pub mod Error
pub mod World
pub mod Retry
pub mod Message
pub mod Request
pub mod Objects
