-- ===== src/Workspace/LockManifest/World.antt =====
-- The windows on one networked workspace, on any machines, and its lock file. A machine reads and
-- writes its own copy of the file, as on a sync drive: what another one has written arrives late, out
-- of order or never. On a network share it arrives at once. A new window asks `open`, and its session
-- claims the lock before another one asks (crates/dat0-ui/src/session_boot.rs).
use dat.Prelude.{
  ℕ, zero, suc, ◌==◌, ◌&&◌, Bool, true, false, Text, text_eq, if◌then◌else◌, Option, none, some,
  List, [], ◌∷◌, all, any, ◌≡◌,
}
use dat.Workspace.LockManifest.{
  Process, LockFile, missing, unreadable, malformed, recorded, claim, tombstone, Folder, Opened,
  new_window, open_workspace,
}

-- A window with the workspace open; `manifest_lock` tells whether its session holds the guard.
pub record Session : Type 0 where
  pub process : Process
  pub manifest_lock : Bool

-- `latest` is the file that was written last, on whatever machine.
pub record World : Type 0 where
  pub copies : ℕ → LockFile
  pub latest : LockFile
  pub sessions : List Session

abbrev pub with_copy : ℕ → LockFile → (ℕ → LockFile) → ℕ → LockFile
with_copy m file copies n = if n == m then file else copies n

-- The file that was written last arrives on a machine.
abbrev pub receive : ℕ → World → World
receive m w = record w { copies = with_copy m w.latest w.copies }

-- A folder with a whole, networked workspace.
abbrev pub folder_for : Bool → Folder
folder_for has_window = record {
  has_dat0 = true;
  is_incomplete = false;
  has_window = has_window;
  networked = true;
}

abbrev pub is_of : Process → Session → Bool
is_of p s = s.process.machine == p.machine && s.process.id == p.id

-- `open`, by a window of the process. The process knows its own windows only.
unfoldable pub asks : (ℕ → Bool) → Process → World → Opened
unfolding open_workspace
asks pid_alive p w =
    open_workspace (folder_for (any (is_of p) w.sessions)) pid_alive (w.copies p.machine) p.host

-- A file on a machine, which was just written if `changed`.
abbrev pub put_file : Bool → ℕ → LockFile → World → World
put_file changed m file w = record w {
  copies = with_copy m file w.copies;
  latest = if changed then file else w.latest;
}

-- `claim_lock`: without a guard where the write fails.
unfoldable pub claim_lock : Bool → Process → Text → World → World
unfolding claim
claim_lock written p now w =
    put_file written p.machine (claim written (w.copies p.machine) p now)
      (record w { sessions = record { process = p; manifest_lock = written } ∷ w.sessions })

abbrev pub past : Session → Option (Session × List Session) → Option (Session × List Session)
past s none = none
past s (some (t, l)) = some (t, s ∷ l)

abbrev pub take_out : ℕ → List Session → Option (Session × List Session)
take_out i [] = none
take_out zero (s ∷ l) = some (s, l)
take_out (suc i) (s ∷ l) = past s (take_out i l)

-- Whether `tombstone` writes the file.
abbrev pub is_tombstoned : Bool → LockFile → Bool
is_tombstoned written missing = false
is_tombstoned written unreadable = false
is_tombstoned written malformed = written
is_tombstoned written (recorded _) = written

-- The window closes: its session is dropped, and the guard with it.
unfoldable pub drop_session : Bool → Session → List Session → World → World
unfolding tombstone
drop_session written s rest w =
    let m = s.process.machine in
    if s.manifest_lock
    then (put_file (is_tombstoned written (w.copies m)) m (tombstone written (w.copies m) s.process)
        (record w { sessions = rest }))
    else record w { sessions = rest }

-- The operating system of a machine reports each process there that has a window open as alive.
abbrev pub Reports : (ℕ → Bool) → ℕ → List Session → Type 0
Reports pid_alive machine l =
    all (λ s. if s.process.machine == machine then pid_alive s.process.id else true) l ≡ true

-- The sessions under the process's host name are on its machine.
abbrev pub IsNamed : Process → List Session → Type 0
IsNamed p l =
    all (λ s. if text_eq s.process.host p.host then s.process.machine == p.machine else true) l
    ≡ true

abbrev pub holds_on : ℕ → Session → Bool
holds_on m s = s.manifest_lock && s.process.machine == m

-- `opens`: the file that was written last has arrived. `arrives`: any file, however old, on a machine
-- where no session holds the lock; a drive keeps a machine's own newest file there.
pub data Step (w : World) : World → Type 0 where
  opens :
      (pid_alive : ℕ → Bool) (p : Process) (now : Text) (written : Bool)
      → Reports pid_alive p.machine w.sessions
      → IsNamed p w.sessions
      → w.copies p.machine ≡ w.latest
      → asks pid_alive p w ≡ new_window
      → Step w (claim_lock written p now w)
  closes :
      (i : ℕ) (written : Bool) (s : Session) (rest : List Session)
      → take_out i w.sessions ≡ some (s, rest)
      → Step w (drop_session written s rest w)
  crashes :
      (i : ℕ) (s : Session) (rest : List Session)
      → take_out i w.sessions ≡ some (s, rest)
      → Step w (record w { sessions = rest })
  arrives :
      (m : ℕ) (file : LockFile)
      → any (holds_on m) w.sessions ≡ false
      → Step w (record w { copies = with_copy m file w.copies })

-- Nobody has the workspace open; the files are what earlier versions, other tools or a crash left.
abbrev pub idle : (ℕ → LockFile) → LockFile → World
idle copies latest = record { copies = copies; latest = latest; sessions = [] }

pub data Reach (copies : ℕ → LockFile) (latest : LockFile) : World → Type 0 where
  start : Reach copies latest (idle copies latest)
  later : {v w : World} → Reach copies latest v → Step v w → Reach copies latest w
