-- ===== src/Workspace/LockManifest/Sole.antt =====
-- Who holds the lock of a workspace.
use dat.Prelude.{
  ℕ, Bool, true, false, Text, text_eq, if◌then◌else◌, List, [], ◌∷◌, any, all, ◌==◌, ◌&&◌, ◌≡◌,
  refl, sym, ◌∙◌, ap, ap₂, inl, inr, arith, Bool-cases,
}
use mathlib.Core.Path.{subst}
use mathlib.Core.Bool.{true≢false}
use dat.Workspace.LockManifest.{
  LockManifest, Process, LockFile, missing, unreadable, malformed, recorded, current, acquire,
  classify_record, write, claim, decide, Opened, new_window, open_workspace,
}
use dat.Workspace.LockManifest.World.{
  Session, World, with_copy, asks, claim_lock, drop_session, Reports, IsNamed, holds_on, Step,
  opens, closes, crashes, arrives, Reach, start, later, folder_for, is_of,
}
use dat.Workspace.LockManifest.Holders.{
  holders, Sole, Apart, take_out-Apart, Sole-none, Holds-out, crash-Sole,
}

-- The file is the record of the session's process, and is not tombstoned.
abbrev pub Records : LockFile → Session → Type 0
Records (recorded r) s =
    (r.tombstoned ≡ false) × (r.pid ≡ s.process.id) × (r.hostname ≡ s.process.host)
Records _ s = ⊥

-- The file that was written last, and the copy on the session's machine, are its record.
abbrev pub Holds : World → Session → Type 0
Holds w s = Records w.latest s × Records (w.copies s.process.machine) s

abbrev pub IsSole : World → Type 0
IsSole w = Sole (Holds w) (holders w.sessions)

drop_session-Sole :
    (written : Bool) (s : Session) (rest : List Session) (w : World)
    → IsSole w
    → Apart s w.sessions rest
    → IsSole (drop_session written s rest w)
unfolding drop_session
drop_session-Sole written s rest w k c = elim (Bool-cases s.manifest_lock) [
  | inl e ↦ rw e (Sole-none _ (holders rest) (Holds-out (Holds w) s w.sessions rest k c e).0)
  | inr f ↦ rw f (crash-Sole (Holds w) s w.sessions rest k c)
]

abbrev pub is_new : Opened → Bool
is_new new_window = true
is_new _ = false

-- What the operating system of a machine reports of the sessions under its host name.
abbrev reports : (ℕ → Bool) → Text → Session → Bool
reports pid_alive host s = if text_eq s.process.host host then pid_alive s.process.id else true

abbrev ReportsHost : (ℕ → Bool) → Text → List Session → Type 0
ReportsHost pid_alive host l = all (reports pid_alive host) l ≡ true

Reports-ReportsHost :
    (pid_alive : ℕ → Bool) (p : Process) (l : List Session)
    → Reports pid_alive p.machine l
    → IsNamed p l
    → ReportsHost pid_alive p.host l
Reports-ReportsHost pid_alive p [] h k = refl
Reports-ReportsHost pid_alive p (s ∷ l) h k =
    let h' : Reports pid_alive p.machine l = ground arith in
    let k' : IsNamed p l = ground arith in ground (arith, Reports-ReportsHost pid_alive p l h' k')

hold-ReportsHost :
    (pid_alive : ℕ → Bool) (host : Text) (s : Session) (l : List Session)
    → reports pid_alive host s ≡ true
    → ReportsHost pid_alive host l
    → (b : Bool) → ReportsHost pid_alive host (if b then s ∷ l else l)
hold-ReportsHost pid_alive host s l h k true = ground arith
hold-ReportsHost pid_alive host s l h k false = k

holders-ReportsHost :
    (pid_alive : ℕ → Bool) (host : Text) (l : List Session)
    → ReportsHost pid_alive host l
    → ReportsHost pid_alive host (holders l)
holders-ReportsHost pid_alive host [] k = k
holders-ReportsHost pid_alive host (s ∷ l) k =
    let h : reports pid_alive host s ≡ true = ground arith in
    let t : ReportsHost pid_alive host l = ground arith in
    hold-ReportsHost pid_alive host s (holders l) h (holders-ReportsHost pid_alive host l t)
      s.manifest_lock

module _ (pid_alive : ℕ → Bool) (p : Process) where
  -- A record that is not tombstoned, of a process that is not known to be dead, lets nobody in.
  recorded-asks :
      (r : LockManifest) (held : Bool)
      → r.tombstoned ≡ false
      → (if text_eq r.hostname p.host then pid_alive r.pid else true) ≡ true
      → is_new (open_workspace (folder_for held) pid_alive (recorded r) p.host) ≡ false
  unfolding open_workspace acquire classify_record decide
  recorded-asks r held n k = ground arith

  Records-asks :
      (file : LockFile) (s : Session) (held : Bool)
      → Records file s
      → reports pid_alive p.host s ≡ true
      → is_new (open_workspace (folder_for held) pid_alive file p.host) ≡ false
  Records-asks missing s held k h = absurd k
  Records-asks unreadable s held k h = absurd k
  Records-asks malformed s held k h = absurd k
  Records-asks (recorded r) s held (n, i, m) h =
      recorded-asks r held n (ap₂ (λ x y. if text_eq x p.host then pid_alive y else true) m i ∙ h)

  Sole-asks :
      (w : World) (l : List Session) (held : Bool)
      → Sole (Holds w) l
      → ReportsHost pid_alive p.host l
      → is_new (open_workspace (folder_for held) pid_alive w.latest p.host) ≡ true
      → l ≡ []
  Sole-asks w [] held k h e = refl
  Sole-asks w (s ∷ []) held k h e =
      let one : reports pid_alive p.host s ≡ true = ground arith in
      absurd (true≢false (sym e ∙ Records-asks w.latest s held k.0 one))
  Sole-asks w (s ∷ t ∷ l) held k h e = absurd k

  Records-claim :
      (file : LockFile) (now : Text)
      → Records (claim true file p now) (record { process = p; manifest_lock = true })
  unfolding claim write current
  Records-claim file now = (refl, refl, refl)

  claim_lock-Sole :
      (now : Text) (written : Bool) (w : World)
      → holders w.sessions ≡ []
      → IsSole (claim_lock written p now w)
  unfolding claim_lock
  claim_lock-Sole now true w e =
      let s : Session = record { process = p; manifest_lock = true } in
      let file = claim true (w.copies p.machine) p now in
      let same : (p.machine == p.machine) ≡ true = ground arith in
      let k = Records-claim (w.copies p.machine) now in
      subst (λ l. Sole (Holds (claim_lock true p now w)) (s ∷ l)) (sym e)
        (k, subst (λ b. Records (if b then file else w.copies p.machine) s) (sym same) k)
  claim_lock-Sole now false w e = Sole-none _ (holders w.sessions) e

-- The sessions with the guard on a machine.
hold-any :
    (m : ℕ) (s : Session) (l : List Session) (b : Bool)
    → any (λ t. t.process.machine == m) (if b then s ∷ l else l)
      ≡ (if b && s.process.machine == m then true else any (λ t. t.process.machine == m) l)
hold-any m s l true = refl
hold-any m s l false = refl

holders-any :
    (m : ℕ) (l : List Session) → any (λ t. t.process.machine == m) (holders l) ≡ any (holds_on m) l
holders-any m [] = refl
holders-any m (s ∷ l) =
    hold-any m s (holders l) s.manifest_lock
    ∙ ap (λ b. if holds_on m s then true else b) (holders-any m l)

arrives-Sole :
    (m : ℕ) (file : LockFile) (w : World) (l : List Session)
    → any (λ t. t.process.machine == m) l ≡ false
    → Sole (Holds w) l
    → Sole (Holds (record w { copies = with_copy m file w.copies })) l
arrives-Sole m file w [] h k = tt
arrives-Sole m file w (s ∷ []) h k =
    let other : (s.process.machine == m) ≡ false = ground arith in
    (k.0, subst (λ b. Records (if b then file else w.copies s.process.machine) s) (sym other) k.1)
arrives-Sole m file w (s ∷ t ∷ l) h k = absurd k

Step-IsSole : {v w : World} → Step v w → IsSole v → IsSole w
unfolding asks
Step-IsSole {v = v} (opens pid_alive p now written h n fresh e) k =
    let held = any (is_of p) v.sessions in
    claim_lock-Sole pid_alive p now written v (
      Sole-asks pid_alive p v (holders v.sessions) held k
        (holders-ReportsHost pid_alive p.host v.sessions
          (Reports-ReportsHost pid_alive p v.sessions h n))
        (sym (ap (λ f. is_new (open_workspace (folder_for held) pid_alive f p.host)) fresh)
          ∙ ap is_new e))
Step-IsSole {v = v} (closes i written s rest e) k =
    drop_session-Sole written s rest v k (take_out-Apart i v.sessions s rest e)
Step-IsSole {v = v} (crashes i s rest e) k =
    crash-Sole (Holds v) s v.sessions rest k (take_out-Apart i v.sessions s rest e)
Step-IsSole {v = v} (arrives m file h) k =
    arrives-Sole m file v (holders v.sessions) (holders-any m v.sessions ∙ h) k

-- Whatever the lock files held at first, and however windows on any machines open, close and crash
-- and the files of others arrive, also old ones and also where writes fail: at most one session
-- holds the lock manifest, and while one does, the file that was written last and the one on its
-- machine are the record of its process and not tombstoned. So it is where each opening machine has
-- the file that was written last and no session of another machine under its host name, no opening
-- starts between the question of another and its claim, and no "Open anyway" is confirmed.
pub Reach-IsSole :
    {copies : ℕ → LockFile} {latest : LockFile} {w : World} → Reach copies latest w → IsSole w
Reach-IsSole start = tt
Reach-IsSole (later r s) = Step-IsSole s (Reach-IsSole r)
