-- ===== src/ResourceStore/Disk/Recovery.antt =====
-- What a restart has of the resources (src/resource_store.rs): the log of each service, replayed, is
-- the map in memory, after any captures and transitions.
use gostly_ai_proxy.Base.{
  ℕ, ◌<◌, ◌^◌, ◌≡◌, true, false, Option, none, some, List, [], ◌∷◌, Text, text_eq, pair_eq, ◌==◌,
}
use gostly_ai_proxy.Base.HashMap
use gostly_ai_proxy.Base.HashMap.{HashMap, get-insert, All-insert}
use gostly_ai_proxy.Json.{Json}
use gostly_ai_proxy.Json.Exact.{IsExact}
use gostly_ai_proxy.Library.Reload.{Dir}
use gostly_ai_proxy.ResourceStore.{ResourceState, ResourceStore, capture_create, apply_transition}
use gostly_ai_proxy.ResourceStore.Disk.Log.{IsDurable}
use gostly_ai_proxy.ResourceStore.Disk.{ResourceSerde, persist_jsonl}

-- The operations that persist, each with its service.
pub data StoreOp : Type 0 where
  capture : ℕ → Text → Text → Json → Option Text → Option Text → ℕ → StoreOp
  transition : ℕ → Text → Text → Text → Text → StoreOp

-- Persistence is asked of what is read back as it is: a capture of a body of integers, not deeper
-- than a line may be, with a status and a time that have a form.
abbrev pub IsStorableOp : StoreOp → Type 0
IsStorableOp (capture now svc collection body hint content_type status) =
    IsExact 126 body × (status < 2 ^ 16) × (now < 253402300800000000000)
IsStorableOp (transition now svc collection id action) = now < 253402300800000000000

module _ (serde : ResourceSerde) where
  -- What a capture or a transition gives to `persist_jsonl`, and the log after it.
  abbrev pub persist_to : Text → Option ResourceState → Dir → Dir
  persist_to svc none files = files
  persist_to svc (some s) files = persist_jsonl serde true svc s files

  abbrev pub apply_op : ResourceStore × Dir → StoreOp → ResourceStore × Dir
  apply_op (store, files) (capture now svc collection body hint content_type status) =
      let r = capture_create store now svc collection body hint content_type status in
      (r.1, persist_to svc r.2 files)
  apply_op (store, files) (transition now svc collection id action) =
      let r = apply_transition store now svc collection id action in (r.1, persist_to svc r.2 files)

  abbrev pub apply_ops : ResourceStore × Dir → List StoreOp → ResourceStore × Dir
  apply_ops s [] = s
  apply_ops s (op ∷ ops) = apply_ops (apply_op s op) ops

  -- Persistence is on, and the logs have what is in memory.
  abbrev pub Recovers : ResourceStore × Dir → Type 0
  Recovers (store, files) =
      ((store.data_dir == []) ≡ false) × IsDurable serde store.by_service files
