-- ===== src/Task/Stream/Transfer.antt =====
-- What a read and a write hand over when they meet.
use polyengine.Cabi.Layout.{Layout}
