-- ===== src/Config/Kept.antt =====
-- A save (src/rss_config.c) keeps the lines of the sections that nothing dirty names.
use raptor_common.Base.{Bool, List}
use raptor_common.Config.Types.{Config}
