-- ===== src/Tests/Keys.antt =====
-- A key of the tests.
use strimzi_backup_operator.Base.{String}

abbrev pub manifest_key : String
manifest_key = "a/manifest.json"
