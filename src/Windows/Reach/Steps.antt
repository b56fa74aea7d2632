-- ===== src/Windows/Reach/Steps.antt =====
-- Every step leaves the world safe, and so every world that is reached is safe.
use wl.Util.NumTab.{NumTab}
use wl.Windows.Reach.{Reach}
