-- ===== src/Httpx/Origins.antt =====
-- internal/httpx/middleware.go, CORS: which origins may read responses.
