-- ===== src/Store/Tables.antt =====
-- The tables that `migrate` in internal/store/sqlite.go creates, one list of rows for each. The
-- order of a list carries no meaning. Foreign keys are declared there and not enforced: the code
-- never sets the pragma `foreign_keys`.
use srv.Base.{ℕ, String, Bool, Option, List, []}
use srv.Base.Int.{ℤ}
use srv.Model.{
  Time, RequestRow, Instance, MemoryPool, ImportReceipt, Migration, CleanupReceipt, Integration,
}

-- An instance with the column that only the triggers write.
pub record InstanceRow : Type 0 where
  pub inst : Instance
  pub stopped_since : Option Time

pub record EnrollmentKey : Type 0 where
  pub instance_id : String
  pub key_id : String

pub record Fence : Type 0 where
  pub instance_id : String
  pub request_id : String

-- `receipt` is stored as JSON text, which decodes to the record that was encoded.
pub record ReceiptRow : Type 0 where
  pub request_id : String
  pub actor : String
  pub receipt : CleanupReceipt

pub record Bootstrap : Type 0 where
  pub instance_id : String
  pub created_at : Time
  pub generation : ℤ

pub record Resize : Type 0 where
  pub pool_id : String
  pub request_id : String
  pub size_bytes : ℤ
  pub running : Bool

-- `created_at` and the creators of a binding are written and never read.
pub record Binding : Type 0 where
  pub instance_id : String
  pub integration_id : String

pub record Event : Type 0 where
  pub id : ℕ
  pub instance_id : String
  pub created_at : Time
  pub kind : String  -- the column `type`
  pub message : String
  pub payload : String

pub record Tables : Type 0 where
  pub requests : List RequestRow
  pub instances : List InstanceRow
  pub enrollment_keys : List EnrollmentKey
  pub fences : List Fence
  pub receipts : List ReceiptRow
  pub bootstraps : List Bootstrap
  pub migrations : List Migration
  pub imports : List ImportReceipt
  pub pools : List MemoryPool
  pub resizes : List Resize
  pub integrations : List Integration
  pub bindings : List Binding
  pub events : List Event
  pub next_event : ℕ  -- AUTOINCREMENT

abbrev pub empty : Tables
empty = record {
  requests = [];
  instances = [];
  enrollment_keys = [];
  fences = [];
  receipts = [];
  bootstraps = [];
  migrations = [];
  imports = [];
  pools = [];
  resizes = [];
  integrations = [];
  bindings = [];
  events = [];
  next_event = 1;
}
