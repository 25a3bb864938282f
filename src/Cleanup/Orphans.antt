-- ===== src/Cleanup/Orphans.antt =====
-- Which media items the cleanup spares, and what it counts.
use api_calixio.Text.{Text}
use api_calixio.External.{External}
