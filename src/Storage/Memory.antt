-- ===== src/Storage/Memory.antt =====
-- A storage that keeps its entries in a dictionary: the interface can be met.
use user_managed_access.Prelude.{Dict, get, put, remove, get-put, get-remove}
use user_managed_access.Storage.{KeyValueStorage}

abbrev pub memory_storage : (V : Type 0) → KeyValueStorage V
memory_storage V = record {
  State = Dict V;
  get = get;
  set = put;
  delete = remove;
  get-set = get-put;
  get-delete = get-remove;
}
