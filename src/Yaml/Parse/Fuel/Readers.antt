-- ===== src/Yaml/Parse/Fuel/Readers.antt =====
-- The fuel of the readers of extents, interleaved extents and files never runs out.
use famfs.Yaml.Parse.Striped
use famfs.Yaml.Parse.File
