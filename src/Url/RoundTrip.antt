-- ===== src/Url/RoundTrip.antt =====
-- url.rs: a URL that is put together from its parts is parsed into them.
