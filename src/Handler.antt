-- ===== src/Handler.antt =====
-- The HTTP handlers: internal/delivery/http/handler, with internal/delivery/http/dto,
-- internal/delivery/http/response/writer.go, internal/pkg/validator/validator.go and
-- internal/pkg/idempotency/hash.go. fiber, go-playground/validator, encoding/json and crypto/sha256
-- are parameters; a handler is a function of the request and of the process.
pub mod Input
pub mod Reply
pub mod Account
pub mod Money
pub mod Lists
pub mod Keeps
