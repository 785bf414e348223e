-- ===== src/Workspace/LockManifest.antt =====
-- The holder record of a networked workspace, `.dat0/lock.json`
-- (crates/dat0-core/src/workspace/lock_manifest.rs), and its use by `decide`
-- (crates/dat0-ui/src/components/workspace_in_use.rs) and `open`
-- (crates/dat0-ui/src/workspace_open.rs).
pub mod World
pub mod Holders
pub mod Sole
pub mod Released
mod Examples
use dat.Prelude.{ℕ, Bool, true, false, Text, text_eq, if◌then◌else◌, []}
use dat.Prelude.Results.{Result, ok, err}

pub record LockManifest : Type 0 where
  pub pid : ℕ
  pub hostname : Text
  pub started_at : Text
  pub dat0_version : Text
  pub tombstoned : Bool

-- A process, on a machine; the host name is what the operating system calls the machine, which
-- need not tell it from another.
pub record Process : Type 0 where
  pub id : ℕ
  pub machine : ℕ
  pub host : Text
  pub version : Text

unfoldable pub current : Process → Text → LockManifest
current p started_at = record {
  pid = p.id;
  hostname = p.host;
  started_at = started_at;
  dat0_version = p.version;
  tombstoned = false;
}

-- What reading and parsing `lock.json` finds: no file, a file that cannot be read, one that is no
-- record, or a record.
pub data LockFile : Type 0 where
  missing unreadable malformed : LockFile
  recorded : LockManifest → LockFile

pub data AcquireOutcome : Type 0 where
  available reclaimable : AcquireOutcome
  held_same_machine conflict_foreign : LockManifest → AcquireOutcome

pub data ReadError : Type 0 where
  read_error : ReadError

unfoldable pub classify_record : (ℕ → Bool) → Text → LockManifest → AcquireOutcome
classify_record pid_alive me_host rec =
    if rec.tombstoned
    then available
    else if text_eq rec.hostname me_host
    then (if pid_alive rec.pid then held_same_machine rec else reclaimable)
    else conflict_foreign rec

unfoldable pub acquire : (ℕ → Bool) → LockFile → Text → Result ReadError AcquireOutcome
unfolding classify_record
acquire pid_alive missing me_host = ok available
acquire pid_alive unreadable me_host = err read_error
acquire pid_alive malformed me_host = ok available
acquire pid_alive (recorded rec) me_host = ok (classify_record pid_alive me_host rec)

-- `write`: the new record replaces the file at once, or, where an operation fails, nothing changes.
unfoldable pub write : Bool → LockFile → LockManifest → LockFile
write written file rec = if written then recorded rec else file

unfoldable pub claim : Bool → LockFile → Process → Text → LockFile
unfolding write current
claim written file p started_at = write written file (current p started_at)

-- By the process that closes its window. A file that is no record gets one of that process.
unfoldable pub tombstone : Bool → LockFile → Process → LockFile
unfolding write current
tombstone written missing p = missing
tombstone written unreadable p = unreadable
tombstone written malformed p =
    write written malformed (record (current p []) { tombstoned = true })
tombstone written (recorded rec) p = write written (recorded rec) (record rec { tombstoned = true })

pub data ModalDecision : Type 0 where
  proceed same_machine_in_use block_same_machine : ModalDecision
  foreign : LockManifest → ModalDecision

abbrev pub decide_outcome : AcquireOutcome → ModalDecision
decide_outcome available = proceed
decide_outcome reclaimable = proceed
decide_outcome (conflict_foreign h) = foreign h
decide_outcome (held_same_machine _) = block_same_machine

unfoldable pub decide : AcquireOutcome → Bool → ModalDecision
decide outcome in_process = if in_process then same_machine_in_use else decide_outcome outcome

-- What `open` does: a banner, raising the window that has the folder, a new window, or a modal
-- whose confirmation opens the window.
pub data Opened : Type 0 where
  not_a_workspace incomplete raised new_window in_use : Opened
  asked : LockManifest → Opened

abbrev pub unwrap_available : Result ReadError AcquireOutcome → AcquireOutcome
unwrap_available (ok outcome) = outcome
unwrap_available (err _) = available

abbrev pub open_decision : ModalDecision → Opened
open_decision proceed = new_window
open_decision (foreign holder) = asked holder
open_decision block_same_machine = in_use
open_decision same_machine_in_use = in_use

-- What `open` finds of the folder: `dat0.is_dir()`, `detect_incomplete`, `windows.holding` and
-- `is_networked`.
pub record Folder : Type 0 where
  pub has_dat0 : Bool
  pub is_incomplete : Bool
  pub has_window : Bool
  pub networked : Bool

unfoldable pub open_workspace : Folder → (ℕ → Bool) → LockFile → Text → Opened
unfolding acquire decide
open_workspace folder pid_alive file me_host =
    let outcome =
      if folder.networked then unwrap_available (acquire pid_alive file me_host) else available in
    if folder.has_dat0
    then (if folder.is_incomplete
        then incomplete
        else if folder.has_window
        then raised
        else open_decision (decide outcome false))
    else not_a_workspace
