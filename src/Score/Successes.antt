-- ===== src/Score/Successes.antt =====
-- The requests of cmd/server/score_handlers.go that are answered with success.
