-- ===== src/ResourceStore/Disk/Restart.antt =====
-- The start-up of the resource store (src/resource_store.rs): `load_from_disk` over a directory of
-- logs gives every service the replay of its own log.
use gostly_ai_proxy.Base.{◌≡◌, Option, some, [], ◌∷◌, Text, text_eq, pair_eq}
use gostly_ai_proxy.Base.HashMap
use gostly_ai_proxy.Base.HashMap.{HashMap}
use gostly_ai_proxy.ResourceStore.{ResourceStore, ServiceResources}
use gostly_ai_proxy.ResourceStore.Disk.{service_of_file, log_of}

-- A file is the log of the service that its name is read as. A service whose name ends in `.jsonl`
-- has no such log, as all its suffixes are cut.
abbrev pub IsLog : Text × Text → Type 0
IsLog (fname, content) = (svc : Text) × (fname ≡ log_of svc) × (service_of_file fname ≡ some svc)

-- A bucket that was loaded, unless it is empty.
abbrev loaded_or : ServiceResources → ServiceResources → ServiceResources
loaded_or [] old = old
loaded_or (b ∷ m) old = b ∷ m
