-- ===== src/Config/Reloaded.antt =====
-- What a load finds in a file that a save wrote from the whole store (src/rss_config.c).
use raptor_common.Base.{List}
use raptor_common.Config.Types.{Config}
