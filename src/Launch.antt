-- ===== src/Launch.antt =====
-- internal/vmrunner/receipts.go: the receipts of the attempts to start a machine, which have a
-- directory for each name. All operations hold the lock of the name. Directories, file names and
-- digests are made by `key`, which is SHA-256 in hexadecimal; reasons of an answer are left out.
pub mod Name
pub mod Start
pub mod Stop
pub mod Discipline
pub mod Files
pub mod Trace
mod Tests
use srv.Model.Memory.{codes}
use srv.Base.Lists.{select_where, length, update_where, exists_where, find_where}
use srv.Launch.Name.{valid_name}
use srv.Base.{
  text_iff, nat_eq, string_eq, [], arith, ◌&&◌, ◌||◌, ◌↔◌, if◌then◌else◌, none, not, some, true,
  ◌!=◌, ◌==◌, ◌∷◌, Bool, Comparable, List, Option, String, ℕ, ◌≡◌,
}
use srv.Effect.{Op, give, stop, stop_if, ask, read, write, check, attempt, ◌>>=◌, ◌>>◌}

-- StartResultRequest
pub record Attempt : Type 0 where
  pub name : String
  pub instance_id : String
  pub request_id : String
  pub host_boot_id : String

-- `garbled` is any other text.
pub data Stage : Type 0 where
  accepted started closed garbled : Stage

abbrev rank : Stage → ℕ
rank accepted = 0
rank started = 1
rank closed = 2
rank garbled = 3

abbrev pub same_stage : Stage → Stage → Bool
same_stage a b = rank a == rank b

pub same_stage_iff : (a b : Stage) → (same_stage a b ≡ true) ↔ (a ≡ b)
same_stage_iff a b = ground arith

instance abbrev pub stage_eq : Comparable Stage
stage_eq = record { agree = same_stage; decides = same_stage_iff }

-- startReceipt; a PID that is not positive is 0
pub record Receipt : Type 0 where
  pub attempted : Attempt
  pub digest : String
  pub stage : Stage
  pub pid : ℕ
  pub ticks : ℕ
  pub resume_config : String
  pub save_state : Bool

-- where a receipt is kept: the directory of a name, and the file of a request ID without `.json`
pub record Place : Type 0 where
  pub dir : String
  pub entry : String

abbrev pub same_place : Place → Place → Bool
same_place a b = a.dir == b.dir && a.entry == b.entry

pub place_iff : (a b : Place) → (same_place a b ≡ true) ↔ (a ≡ b)
place_iff a b = ground (arith, text_iff a.dir b.dir, text_iff a.entry b.entry)

instance abbrev pub place_eq : Comparable Place
place_eq = record { agree = same_place; decides = place_iff }

-- a receipt in the directory of its name
pub record File : Type 0 where
  pub place : Place
  pub receipt : Receipt

-- What outlives an operation. `launches` are the attempts of the calls of `start`.
pub record Runner : Type 0 where
  pub files : List File
  pub boot : String
  pub launches : List Attempt

-- the fields of StartRequest that the code reads, and the two texts that it hashes
pub record StartRequest : Type 0 where
  pub attempted : Attempt
  pub payload : String  -- the whole request as JSON
  pub config : String  -- the request without its attempt, as JSON: resumeConfig

pub record StopRequest : Type 0 where
  pub attempted : Attempt
  pub save_state : Bool

-- StartResponse
pub data Response : Type 0 where
  running : ℕ → Response
  absent unknown : Response

pub data Error : Type 0 where
  world incomplete bad_name mismatch corrupt several occupied live : Error
  quarantined not_found cannot_save : Error

abbrev pub same_attempt : Attempt → Attempt → Bool
same_attempt a b =
    a.name == b.name
    && (a.instance_id == b.instance_id
        && (a.request_id == b.request_id && a.host_boot_id == b.host_boot_id))

-- StartResultRequest.Validate
unfoldable pub is_complete : Attempt → Bool
is_complete a = not (
    not (valid_name a.name)
    || (a.instance_id == "" || (a.request_id == "" || a.host_boot_id == "")))

-- the tests of readReceipt on the text of a file
unfoldable pub check_receipt : Attempt → Receipt → Option Error
check_receipt q r =
    if not (same_attempt r.attempted q)
    then some mismatch
    else if not (is_complete r.attempted)
    then some incomplete
    else if r.stage == garbled
    then some corrupt
    else if r.stage != closed && length (codes r.digest) != 64
    then some corrupt
    else if r.stage == started && (r.pid == 0 || (r.ticks == 0 || r.digest == ""))
    then some corrupt
    else none

abbrev pub Step : Type 0 → Type 0
Step A = Op Runner Error A

abbrev pub refuse : Option Error → Step (Unit {0})
refuse none = give tt
refuse (some e) = stop e

abbrev pub in_file : Place → File → Bool
in_file k f = f.place == k

abbrev pub lookup : Place → List File → Option File
lookup k files = find_where (in_file k) files

-- a rename onto the file name
abbrev pub put_file : File → List File → List File
put_file f files =
    if exists_where (in_file f.place) files
    then update_where (in_file f.place) (λ _. f) files
    else f ∷ files

abbrev pub is_open : Receipt → Bool
is_open r = r.stage != closed

-- the open receipt of a scan and one more
abbrev pub only_active : Option Receipt → Receipt → Step (Option Receipt)
only_active none r = give (some r)
only_active (some _) r = stop several

-- `none` cannot be: the file was there.
abbrev pub choose_active : Option Receipt → Option Receipt → Step (Option Receipt)
choose_active active none = stop corrupt
choose_active active (some r) = if not (is_open r) then give active else only_active active r

module _ (key : String → String) where
  -- receiptDir and the name of the file in it
  abbrev pub place_of : String → String → Place
  place_of name id = record { dir = key name; entry = key id }

  abbrev pub place_for : Attempt → Place
  place_for a = place_of a.name a.request_id

  -- The rename may have happened when the sync of the directory fails.
  unfoldable pub write_receipt : Receipt → Step (Unit {0})
  write_receipt r = do
    check world
    write λ s. record s {
      files = put_file (record { place = place_for r.attempted; receipt = r }) s.files;
    }
    check world

  abbrev pub decode : Attempt → Option File → Step (Option Receipt)
  decode q none = give none
  decode q (some f) = do check world; refuse (check_receipt q f.receipt); give (some f.receipt)

  unfoldable pub read_receipt : Attempt → Step (Option Receipt)
  read_receipt q = do check world; f ← read (λ s. lookup (place_for q) s.files); decode q f

  -- a file of the directory of that name
  abbrev pub in_directory : String → File → Bool
  in_directory name f = f.place.dir == key name

  unfoldable pub scan : String → Option Receipt → List File → Step (Option Receipt)
  scan name active [] = give active
  scan name active (f ∷ fs) = do
    check world
    stop_if
        (f.receipt.attempted.name != name || f.place.entry != key f.receipt.attempted.request_id)
        corrupt
    checked ← read_receipt f.receipt.attempted
    active' ← choose_active active checked
    scan name active' fs

  unfoldable pub active_receipt : String → Step (Option Receipt)
  active_receipt name = do
    check world
    fs ← read (λ s. select_where (in_directory name) s.files)
    scan name none fs
