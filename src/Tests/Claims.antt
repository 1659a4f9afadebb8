-- ===== src/Tests/Claims.antt =====
-- A claim of one frame on the small term.
use caeron.Buffer.{Buffer}
