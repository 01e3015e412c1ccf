-- ===== src/Task/Future/Delivery.antt =====
-- What a future hands over when its read and its write meet.
use polyengine.Cabi.Layout.{Layout}
use polyengine.Task.Buffer.{Buffer}
